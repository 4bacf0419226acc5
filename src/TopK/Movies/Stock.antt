-- ===== src/TopK/Movies/Stock.antt =====
-- What a `MovieRentingSystem` stands for: which copies of each movie are in the shops, and which are rented.
use code_recipes.Common.{
  ℕ, suc, ◌≡◌, ap, ◌∙◌, ◌&&◌, List, [], ◌∷◌, if◌then◌else◌, take, Option, none, some,
}
use code_recipes.Common.Eq.{int_eq, int_beq}
use code_recipes.Common.Int.{ℤ}
use code_recipes.Common.Sort.{insert_sorted}
use code_recipes.Common.Dict.{lookup, NoDup}
use code_recipes.Common.Order.{Order}
use code_recipes.TopK.Heap.{TopK, discard}
use code_recipes.TopK.Refines.{Holds}
use code_recipes.TopK.Refines.Least.{Holds-take}
use code_recipes.TopK.Movies.Index.{Movie, HctIndex, hct_index, index_lt, index_eq}
use code_recipes.TopK.Movies.System.{System, shops, shops_and_movies, or_empty}

pub record Stock (movies : List Movie) : Type 0 where
  pub unrented : ℤ → List (HctIndex movies)
  pub rented : List (HctIndex movies)

abbrev pub update {ℓ} : {A : Type ℓ} → (ℤ → A) → ℤ → A → ℤ → A
update f m v n = if int_beq m n then v else f n

-- Where a shop has its copy of a movie: the last one of the list.
abbrev pub place : ℕ → List Movie → ℤ → ℤ → Option ℕ
place i [] shop movie = none
place i (m ∷ ms) shop movie = elim (place (suc i) ms shop movie) [
  | some j ↦ some j
  | none ↦ if int_beq m.shop shop && int_beq m.movie movie then some i else none
]

module _ {movies : List Movie} where
  -- A copy goes out, or comes back.
  abbrev pub lend : ℤ → HctIndex movies → Stock movies → Stock movies
  lend movie w st = record {
    unrented = update st.unrented movie (discard (index_lt movies) w (st.unrented movie));
    rented = insert_sorted (index_lt movies) w st.rented;
  }

  abbrev pub return : ℤ → HctIndex movies → Stock movies → Stock movies
  return movie w st = record {
    unrented = update st.unrented movie (insert_sorted (index_lt movies) w (st.unrented movie));
    rented = discard (index_lt movies) w st.rented;
  }

  abbrev pub shelve : ℤ → Option (HctIndex movies) → Stock movies → Stock movies
  shelve movie none st = st
  shelve movie (some w) st = record st {
    unrented = update st.unrented movie (insert_sorted (index_lt movies) w (st.unrented movie));
  }

  abbrev pub shelve_all : ℕ → List Movie → Stock movies → Stock movies
  shelve_all i [] st = st
  shelve_all i (m ∷ ms) st = shelve_all (suc i) ms (shelve m.movie (hct_index movies i) st)

abbrev pub no_stock : (movies : List Movie) → Stock movies
no_stock movies = record { unrented = λ m. []; rented = [] }

-- All copies on the shelves.
abbrev pub full_stock : (movies : List Movie) → Stock movies
full_stock movies = shelve_all 0 movies (no_stock movies)

module _ {movies : List Movie} (o : Order (index_lt movies)) where
  abbrev pub Kept : TopK (HctIndex movies) → List (HctIndex movies) → Type 0
  Kept h all = Holds (index_lt movies) o h all × (h.k ≡ 5)

  abbrev pub KeptAt : Option (TopK (HctIndex movies)) → List (HctIndex movies) → Type 0
  KeptAt none all = all ≡ []
  KeptAt (some h) all = Kept h all

  abbrev pub CachedAt : Option (List ℤ) → List (HctIndex movies) → Type 0
  CachedAt none all = Unit
  CachedAt (some ans) all = ans ≡ shops (take 5 all)

  abbrev pub ReportedAt : Option (List (ℤ × ℤ)) → List (HctIndex movies) → Type 0
  ReportedAt none all = Unit
  ReportedAt (some ans) all = ans ≡ shops_and_movies (take 5 all)

  pub record Stocked (places : ℤ → ℤ → Option ℕ) (s : System movies) (st : Stock movies)
      : Type 0 where
    pub unrented : (m : ℤ) → KeptAt (lookup m s.unrented_movies) (st.unrented m)
    pub rented : Kept s.rented_movies st.rented
    pub placed :
        (shop movie : ℤ)
        → lookup movie (or_empty (lookup shop s.inverted_index)) ≡ places shop movie
    pub known : (shop movie : ℤ) → lookup movie s.unrented_movies ≡ none → places shop movie ≡ none
    pub one_each : NoDup s.search_cache
    pub cached : (m : ℤ) → CachedAt (lookup m s.search_cache) (st.unrented m)
    pub reported : ReportedAt s.report_cache st.rented

  pub Kept-take :
      (h : TopK (HctIndex movies)) (all : List (HctIndex movies))
      → Kept h all
      → h.top_k ≡ take 5 all
  Kept-take h all k = Holds-take (index_lt movies) o h all k.0 ∙ ap (λ n. take n all) k.1
