-- ===== src/TopK/Tests.antt =====
-- Runs of `TopK` and of `MovieRentingSystem`, and the theorems at them.
use code_recipes.Common.{ℕ, zero, suc, ◌≡◌, refl, arith, true, ltb, List, [], ◌∷◌, take}
use code_recipes.Common.Eq.{nat_eq}
use code_recipes.Common.Int.{pos}
use code_recipes.Common.Sort.{elem, sorted, insert_sorted}
use code_recipes.Common.Order.{Order}
use code_recipes.Common.Result.{ok, ◌>>=◌}
use code_recipes.TopK.Heap.{top_of, pop_n, heap_of, remove_later}
use code_recipes.TopK.History.{
  Change, added, removed, changes, changes_all, CanChangeAll, top_k-changes,
}
use code_recipes.TopK.Movies.Index.{Movie, hct_index, entry_at}
use code_recipes.TopK.Movies.Order.{NoneTwice}
use code_recipes.TopK.Movies.System.{System, new}
use code_recipes.TopK.Movies.Stock.{full_stock}
use code_recipes.TopK.Movies.Serve.{
  Request, searched, reported, rents, drops, in_shops, on_loan, done, serve, stock_answers,
  CanServeAll, serve_refines_stock,
}

-- The run at the end of python/min_heap.py
popped :
    (pop_n ltb 3 (remove_later ltb 2 (heap_of ltb (2 ∷ 3 ∷ 1 ∷ 5 ∷ 7 ∷ 8 ∷ [])))).0 ≡ 1 ∷ 3 ∷ 5 ∷ []
unfolding pop_n remove_later heap_of
popped = refl

ltb-Order : Order ltb
ltb-Order = record {
  irrefl = λ a. ground arith;
  trans = λ a b c h g. ground arith;
  total = λ a b h g. ground arith;
}

abbrev some_changes : List (Change ℕ)
some_changes = removed 1 ∷ added 1 ∷ removed 3 ∷ []

some_changes-CanChangeAll : CanChangeAll ltb some_changes (sorted ltb (5 ∷ 1 ∷ 3 ∷ []))
unfolding sorted insert_sorted elem
some_changes-CanChangeAll = (refl, (refl, (refl, tt)))

top_k-changes_example :
    (changes ltb some_changes (top_of ltb 2 (5 ∷ 1 ∷ 3 ∷ []))).top_k
    ≡ take 2 (changes_all ltb some_changes (sorted ltb (5 ∷ 1 ∷ 3 ∷ [])))
unfolding elem
top_k-changes_example =
    top_k-changes ltb ltb-Order 2 (5 ∷ 1 ∷ 3 ∷ []) some_changes (refl, (refl, (refl, tt)))
      some_changes-CanChangeAll

abbrev two_movies : List Movie
two_movies =
    record { price = pos 5; shop = pos 0; movie = pos 1 }
    ∷ record { price = pos 4; shop = pos 1; movie = pos 1 }
    ∷ []

two_entries :
    (i j : ℕ) (p : ltb i 2 ≡ true) (q : ltb j 2 ≡ true)
    → entry_at two_movies i p ≡ entry_at two_movies j q
    → i ≡ j
two_entries zero zero p q h = refl
two_entries zero (suc zero) p q h = cc
two_entries (suc zero) zero p q h = cc
two_entries (suc zero) (suc zero) p q h = refl
two_entries (suc (suc i)) j p q h = absurd (ground arith)
two_entries i (suc (suc j)) p q h = absurd (ground arith)

two_movies-NoneTwice : NoneTwice two_movies
two_movies-NoneTwice a b h = two_entries a.idx b.idx a.in_range b.in_range h

abbrev requests : List Request
requests =
    searched (pos 1)
    ∷ rents (pos 1) (pos 1)
    ∷ searched (pos 1)
    ∷ reported
    ∷ drops (pos 1) (pos 1)
    ∷ searched (pos 1)
    ∷ []

requests-CanServeAll : CanServeAll requests (full_stock two_movies)
unfolding elem insert_sorted hct_index
requests-CanServeAll = (tt, ((refl, refl), (tt, (tt, ((refl, refl), (tt, tt))))))

answers :
    stock_answers requests (full_stock two_movies)
    ≡ in_shops (pos 1 ∷ pos 0 ∷ [])
      ∷ done
      ∷ in_shops (pos 0 ∷ [])
      ∷ on_loan ((pos 1, pos 1) ∷ [])
      ∷ done
      ∷ in_shops (pos 1 ∷ pos 0 ∷ [])
      ∷ []
unfolding insert_sorted hct_index
answers = refl

serve_refines_stock_example :
    (left : System two_movies) × ((new two_movies >>= serve requests)
      ≡ ok (stock_answers requests (full_stock two_movies), left))
serve_refines_stock_example =
    serve_refines_stock two_movies requests two_movies-NoneTwice requests-CanServeAll
