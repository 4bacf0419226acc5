-- ===== src/TopK/Movies/Serve.antt =====
-- A run of requests to a `MovieRentingSystem`, against the stock that it stands for.
use code_recipes.Common.{
  ℕ, ◌≡◌, refl, ap, ◌∙◌, true, false, List, [], ◌∷◌, take, Option, none, some,
}
use code_recipes.Common.Int.{ℤ}
use code_recipes.Common.Sort.{elem}
use code_recipes.Common.Order.{Order}
use code_recipes.Common.Result.{Result, ok, ◌>>=◌}
use code_recipes.TopK.Movies.Index.{Movie, HctIndex, hct_index, index_lt, index_eq}
use code_recipes.TopK.Movies.Order.{NoneTwice, index_lt-Order}
use code_recipes.TopK.Movies.System.{
  System, Raised, shops, shops_and_movies, search, report, rent, drop, new,
}
use code_recipes.TopK.Movies.Stock.{Stock, place, lend, return, full_stock, Stocked}
use code_recipes.TopK.Movies.Rents.{search-Stocked, report-Stocked, rent-Stocked, drop-Stocked}
use code_recipes.TopK.Movies.Load.{new-Stocked}

pub data Request : Type 0 where
  searched : ℤ → Request
  reported : Request
  rents : ℤ → ℤ → Request
  drops : ℤ → ℤ → Request

pub data Answer : Type 0 where
  in_shops : List ℤ → Answer
  on_loan : List (ℤ × ℤ) → Answer
  done : Answer

module _ {movies : List Movie} where
  unfoldable pub handle : Request → System movies → Result (Raised movies) (Answer × System movies)
  unfolding search rent drop
  handle (searched movie) s = (let found = search movie s in ok (in_shops found.0, found.1))
  handle reported s = (let found = report s in ok (on_loan found.0, found.1))
  handle (rents shop movie) s = rent shop movie s >>= λ left. ok (done, left)
  handle (drops shop movie) s = drop shop movie s >>= λ left. ok (done, left)

  unfoldable pub serve :
      List Request → System movies → Result (Raised movies) (List Answer × System movies)
  unfolding handle
  serve [] s = ok ([], s)
  serve (r ∷ rs) s =
      handle r s >>= λ first. serve rs first.1 >>= λ rest. ok (first.0 ∷ rest.0, rest.1)

  -- The copy of a movie in a shop.
  abbrev pub copy_at : Option ℕ → Option (HctIndex movies)
  copy_at none = none
  copy_at (some i) = hct_index movies i

  abbrev pub copy : ℤ → ℤ → Option (HctIndex movies)
  copy shop movie = copy_at (place 0 movies shop movie)

  abbrev pub lend_if : ℤ → Option (HctIndex movies) → Stock movies → Stock movies
  lend_if movie none st = st
  lend_if movie (some w) st = lend movie w st

  abbrev pub return_if : ℤ → Option (HctIndex movies) → Stock movies → Stock movies
  return_if movie none st = st
  return_if movie (some w) st = return movie w st

  -- The same on the stock: searches and reports give the five cheapest copies.
  abbrev pub stock_answer : Request → Stock movies → Answer
  stock_answer (searched movie) st = in_shops (shops (take 5 (st.unrented movie)))
  stock_answer reported st = on_loan (shops_and_movies (take 5 st.rented))
  stock_answer (rents shop movie) st = done
  stock_answer (drops shop movie) st = done

  abbrev pub stock_after : Request → Stock movies → Stock movies
  stock_after (searched movie) st = st
  stock_after reported st = st
  stock_after (rents shop movie) st = lend_if movie (copy shop movie) st
  stock_after (drops shop movie) st = return_if movie (copy shop movie) st

  abbrev pub stock_answers : List Request → Stock movies → List Answer
  stock_answers [] st = []
  stock_answers (r ∷ rs) st = stock_answer r st ∷ stock_answers rs (stock_after r st)

  -- Only a copy in the shop is rented, only a rented one is dropped.
  abbrev pub CanLend : ℤ → Option (HctIndex movies) → Stock movies → Type 0
  CanLend movie none st = ⊥
  CanLend movie (some w) st = (elem w (st.unrented movie) ≡ true) × (elem w st.rented ≡ false)

  abbrev pub CanReturn : ℤ → Option (HctIndex movies) → Stock movies → Type 0
  CanReturn movie none st = ⊥
  CanReturn movie (some w) st = (elem w (st.unrented movie) ≡ false) × (elem w st.rented ≡ true)

  abbrev pub CanServe : Request → Stock movies → Type 0
  CanServe (searched movie) st = Unit
  CanServe reported st = Unit
  CanServe (rents shop movie) st = CanLend movie (copy shop movie) st
  CanServe (drops shop movie) st = CanReturn movie (copy shop movie) st

  abbrev pub CanServeAll : List Request → Stock movies → Type 0
  CanServeAll [] st = Unit
  CanServeAll (r ∷ rs) st = CanServe r st × CanServeAll rs (stock_after r st)

module _ {movies : List Movie} (o : Order (index_lt movies)) where
  rent-copy :
      (shop movie : ℤ) (p : Option ℕ) (s : System movies) (st : Stock movies)
      → place 0 movies shop movie ≡ p
      → Stocked o (place 0 movies) s st
      → CanLend movie (copy_at p) st
      → (left : System movies) × (rent shop movie s ≡ ok left)
        × Stocked o (place 0 movies) left (lend_if movie (copy_at p) st)
  rent-copy shop movie none s st q z c = absurd c
  rent-copy shop movie (some i) s st q z c = at (hct_index movies i) refl c
    where
      at :
          (w : Option (HctIndex movies))
          → hct_index movies i ≡ w
          → CanLend movie w st
          → (left : System movies) × (rent shop movie s ≡ ok left)
            × Stocked o (place 0 movies) left (lend_if movie w st)
      at none e c = absurd c
      at (some w) e c = rent-Stocked o (place 0 movies) shop movie i w s st z q e c.0 c.1

  drop-copy :
      (shop movie : ℤ) (p : Option ℕ) (s : System movies) (st : Stock movies)
      → place 0 movies shop movie ≡ p
      → Stocked o (place 0 movies) s st
      → CanReturn movie (copy_at p) st
      → (left : System movies) × (drop shop movie s ≡ ok left)
        × Stocked o (place 0 movies) left (return_if movie (copy_at p) st)
  drop-copy shop movie none s st q z c = absurd c
  drop-copy shop movie (some i) s st q z c = at (hct_index movies i) refl c
    where
      at :
          (w : Option (HctIndex movies))
          → hct_index movies i ≡ w
          → CanReturn movie w st
          → (left : System movies) × (drop shop movie s ≡ ok left)
            × Stocked o (place 0 movies) left (return_if movie w st)
      at none e c = absurd c
      at (some w) e c = drop-Stocked o (place 0 movies) shop movie i w s st z q e c.0 c.1

  handle-Stocked :
      (r : Request) (s : System movies) (st : Stock movies)
      → Stocked o (place 0 movies) s st
      → CanServe r st
      → (left : System movies) × (handle r s ≡ ok (stock_answer r st, left))
        × Stocked o (place 0 movies) left (stock_after r st)
  unfolding handle
  handle-Stocked (searched movie) s st z c =
      let found = search-Stocked o (place 0 movies) movie s st z in
      ((search movie s).1, ap (λ a. ok (in_shops a, (search movie s).1)) found.0, found.1)
  handle-Stocked reported s st z c =
      let found = report-Stocked o (place 0 movies) s st z in
      ((report s).1, ap (λ a. ok (on_loan a, (report s).1)) found.0, found.1)
  handle-Stocked (rents shop movie) s st z c =
      let left = rent-copy shop movie (place 0 movies shop movie) s st refl z c in
      (left.0, ap (λ r. r >>= λ l. ok (done, l)) left.1, left.2)
  handle-Stocked (drops shop movie) s st z c =
      let left = drop-copy shop movie (place 0 movies shop movie) s st refl z c in
      (left.0, ap (λ r. r >>= λ l. ok (done, l)) left.1, left.2)

  serve-Stocked :
      (rs : List Request) (s : System movies) (st : Stock movies)
      → Stocked o (place 0 movies) s st
      → CanServeAll rs st
      → (left : System movies) × (serve rs s ≡ ok (stock_answers rs st, left))
  unfolding serve
  serve-Stocked [] s st z c = (s, refl)
  serve-Stocked (r ∷ rs) s st z c =
      let first = handle-Stocked r s st z c.0 in
      let rest = serve-Stocked rs first.0 (stock_after r st) first.2 c.1 in
      (rest.0, rw (first.1, rest.1) refl)

-- A system that is built from movies of which no two are the same, and then asked any run of searches,
-- reports, rentals of copies that are in the shop and returns of copies that are rented, raises no
-- exception, and gives the answers of the stock: the shops of the five cheapest copies that are not rented,
-- and the shops and movies of the five cheapest that are, whatever its caches hold.
pub serve_refines_stock :
    (movies : List Movie) (rs : List Request)
    → NoneTwice movies
    → CanServeAll rs (full_stock movies)
    → (left : System movies) × ((new movies >>= serve rs)
        ≡ ok (stock_answers rs (full_stock movies), left))
serve_refines_stock movies rs n c =
    let built = new-Stocked (index_lt-Order movies n) in
    let served = serve-Stocked (index_lt-Order movies n) rs built.0 (full_stock movies) built.2 c in
    (served.0, ap (λ r. r >>= serve rs) built.1 ∙ served.1)
