-- ===== src/TopK/Movies/Load.antt =====
-- `__init__` indexes and shelves each movie of the list.
use code_recipes.Common.{
  ℕ, suc, ◌+◌, ◌≡◌, refl, sym, ◌∙◌, false, ◌&&◌, List, [], ◌∷◌, arith, if◌then◌else◌, length,
  Option, none, some, Bool-cases, inl, inr,
}
use code_recipes.Common.Eq.{int_eq, int_beq}
use code_recipes.Common.Int.{ℤ}
use code_recipes.Common.Sort.{elem, sorted}
use code_recipes.Common.Result.{ok}
use code_recipes.Common.Dict.{lookup}
use code_recipes.Common.Order.{Order}
use code_recipes.TopK.Heap.{top_of}
use code_recipes.TopK.Pop.{elem-nil}
use code_recipes.TopK.History.{top_of-Holds, top_of-k}
use code_recipes.TopK.Movies.Index.{Movie, HctIndex, hct_index, index_lt, index_eq}
use code_recipes.TopK.Movies.System.{System, indexed, stored, load_one, load, new}
use code_recipes.TopK.Movies.Stock.{Stock, shelve_all, no_stock, full_stock, place, Stocked}
use code_recipes.TopK.Movies.Shelves.{
  placed_too, place_all, hct_index-some, Before, shelve-Before, stored-Stocked,
}

module _ {movies : List Movie} (o : Order (index_lt movies)) where
  load_one-ok :
      (i : ℕ) (w : HctIndex movies) (m : Movie) (s : System movies)
      → hct_index movies i ≡ some w
      → load_one i m s ≡ ok (stored w m (indexed i m s))
  unfolding load_one
  load_one-ok i w m s q = rw q refl

  pub load-Stocked :
      (places : ℤ → ℤ → Option ℕ) (i : ℕ) (ms : List Movie) (s : System movies) (st : Stock movies)
      → Stocked o places s st
      → Before o i st
      → s.search_cache ≡ []
      → i + length ms ≡ length movies
      → (left : System movies) × (load i ms s ≡ ok left)
        × Stocked o (place_all o places i ms) left (shelve_all i ms st)
  unfolding load
  load-Stocked places i [] s st z b c l = (s, refl, z)
  load-Stocked places i (m ∷ ms) s st z b c l =
      let w = hct_index-some o i (omega arith) in
      let fresh : elem w.0 (st.unrented m.movie) ≡ false =
        elim (Bool-cases (elem w.0 (st.unrented m.movie))) [
          | inl there ↦ (let low = b m.movie w.0 there in let at = w.2 in absurd (omega arith))
          | inr fine ↦ fine
        ] in
      let z' = stored-Stocked o places i w.0 m s st z fresh c in
      let rest =
        load-Stocked (placed_too o places i m) (suc i) ms _ _ z'
          (shelve-Before o i m.movie w.0 st w.2 b) c (omega arith) in
      (rest.0, rw (load_one-ok i w.0 m s w.1) rest.1, rw w.1 rest.2)

  abbrev or_else : Option ℕ → Option ℕ → Option ℕ
  or_else (some j) later = some j
  or_else none later = later

  place_all-place :
      (places : ℤ → ℤ → Option ℕ) (i : ℕ) (ms : List Movie) (shop movie : ℤ)
      → place_all o places i ms shop movie ≡ or_else (place i ms shop movie) (places shop movie)
  place_all-place places i [] shop movie = refl
  place_all-place places i (m ∷ ms) shop movie =
      place_all-place (placed_too o places i m) (suc i) ms shop movie
      ∙ or_else-place (place (suc i) ms shop movie)
    where
      or_else-place :
          (later : Option ℕ)
          → or_else later (placed_too o places i m shop movie)
            ≡ or_else
                (elim later [
                  | some j ↦ some j
                  | none ↦ if int_beq m.shop shop && int_beq m.movie movie then some i else none
                ])
                (places shop movie)
      or_else-place (some j) = refl
      or_else-place none = elim (Bool-cases (int_beq m.shop shop && int_beq m.movie movie)) [
        | inl y ↦ rw y refl
        | inr n ↦ rw n refl
      ]

  Stocked-places :
      (p q : ℤ → ℤ → Option ℕ) (s : System movies) (st : Stock movies)
      → ((shop movie : ℤ) → p shop movie ≡ q shop movie)
      → Stocked o p s st
      → Stocked o q s st
  Stocked-places p q s st f z = record {
    unrented = z.unrented;
    rented = z.rented;
    placed = λ shop movie. z.placed shop movie ∙ f shop movie;
    known = λ shop movie h. sym (f shop movie) ∙ z.known shop movie h;
    one_each = z.one_each;
    cached = z.cached;
    reported = z.reported;
  }

  or_else-none : (later : Option ℕ) → or_else later none ≡ later
  or_else-none none = refl
  or_else-none (some j) = refl

  no_stock-Stocked :
      Stocked o
        (λ shop movie. none)
        (record {
          rented_movies = top_of (index_lt movies) 5 [];
          unrented_movies = [];
          inverted_index = [];
          search_cache = [];
          report_cache = none;
        })
        (no_stock movies)
  unfolding sorted lookup
  no_stock-Stocked = record {
    unrented = λ m. refl;
    rented = (top_of-Holds (index_lt movies) o 5 [] tt, top_of-k (index_lt movies) o 5 []);
    placed = λ shop movie. refl;
    known = λ shop movie h. refl;
    one_each = tt;
    cached = λ m. tt;
    reported = tt;
  }

  -- The system is built, and has all copies in the shops.
  pub new-Stocked :
      (left : System movies) × (new movies ≡ ok left)
      × Stocked o (place 0 movies) left (full_stock movies)
  unfolding new
  new-Stocked =
      let nothing : Before o 0 (no_stock movies) =
        λ m w i. absurd (let out = elem-nil (index_lt movies) o w in cc) in
      let built =
        load-Stocked (λ shop movie. none) 0 movies _ (no_stock movies) no_stock-Stocked nothing refl
          (omega arith) in
      (
        built.0,
        built.1,
        Stocked-places _ (place 0 movies) built.0 (full_stock movies)
            (λ shop movie.
              place_all-place (λ s m. none) 0 movies shop movie
              ∙ or_else-none (place 0 movies shop movie))
            built.2,
      )
