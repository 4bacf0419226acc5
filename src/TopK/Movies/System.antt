-- ===== src/TopK/Movies/System.antt =====
-- `MovieRentingSystem`. A `TopK` in a dict is changed in place: the entry of its key is written again.
use code_recipes.Common.{ℕ, suc, List, [], ◌∷◌, map, Option, none, some}
use code_recipes.Common.Eq.{int_eq}
use code_recipes.Common.Int.{ℤ}
use code_recipes.Common.Dict.{Dict, lookup, insert, erase}
use code_recipes.Common.Result.{Result, ok, err, or_raise, ◌>>=◌}
use code_recipes.TopK.Heap.{TopK, top_of, add, remove}
use code_recipes.TopK.Movies.Index.{Movie, HctIndex, hct_index, element, index_lt, index_eq}

pub data Error : Type 0 where
  key_error : Error
  assertion_error : Error

pub record System (movies : List Movie) : Type 0 where
  pub rented_movies : TopK (HctIndex movies)
  pub unrented_movies : Dict ℤ (TopK (HctIndex movies))
  pub inverted_index : Dict ℤ (Dict ℤ ℕ)
  pub search_cache : Dict ℤ (List ℤ)
  pub report_cache : Option (List (ℤ × ℤ))

-- An exception, with the system it leaves.
pub record Raised (movies : List Movie) : Type 0 where
  pub error : Error
  pub left : System movies

-- A row of a `defaultdict(dict)`
abbrev pub or_empty : Option (Dict ℤ ℕ) → Dict ℤ ℕ
or_empty none = []
or_empty (some row) = row

module _ {movies : List Movie} where
  -- `self.MoiveIndexType(idx)`
  abbrev pub wrapped : ℕ → System movies → Result (Raised movies) (HctIndex movies)
  wrapped i s = or_raise (hct_index movies i) (record { error = assertion_error; left = s })

  -- `self.inverted_index[shop][movie]`: a shop that is not there gets an empty row.
  abbrev pub index_in : ℤ → ℤ → System movies → Option (Dict ℤ ℕ) → Result (Raised movies) ℕ
  index_in shop movie s none = err (record {
    error = key_error;
    left = record s { inverted_index = insert shop [] s.inverted_index };
  })
  index_in shop movie s (some row) =
      or_raise (lookup movie row) (record { error = key_error; left = s })

  unfoldable pub movie_index : ℤ → ℤ → System movies → Result (Raised movies) ℕ
  unfolding lookup insert
  movie_index shop movie s = index_in shop movie s (lookup shop s.inverted_index)

  abbrev pub unrented_of : ℤ → System movies → Result (Raised movies) (TopK (HctIndex movies))
  unrented_of movie s =
      or_raise (lookup movie s.unrented_movies) (record { error = key_error; left = s })

  -- `self.unrented_movies[mid]` with one more copy
  abbrev pub with_copy : HctIndex movies → Option (TopK (HctIndex movies)) → TopK (HctIndex movies)
  with_copy w none = top_of (index_lt movies) 5 (w ∷ [])
  with_copy w (some h) = add (index_lt movies) w h

  -- The body of the loop of `__init__`: first the index, which may raise, then the `TopK`.
  abbrev pub indexed : ℕ → Movie → System movies → System movies
  indexed i m s =
      let row = or_empty (lookup m.shop s.inverted_index) in
      record s { inverted_index = insert m.shop (insert m.movie i row) s.inverted_index }

  abbrev pub stored : HctIndex movies → Movie → System movies → System movies
  stored w m s = record s {
    unrented_movies =
        insert m.movie (with_copy w (lookup m.movie s.unrented_movies)) s.unrented_movies;
  }

  unfoldable pub load_one : ℕ → Movie → System movies → Result (Raised movies) (System movies)
  unfolding lookup insert top_of add hct_index
  load_one i m s = wrapped i (indexed i m s) >>= λ w. ok (stored w m (indexed i m s))

  unfoldable pub load : ℕ → List Movie → System movies → Result (Raised movies) (System movies)
  unfolding load_one
  load i [] s = ok s
  load i (m ∷ ms) s = load_one i m s >>= load (suc i) ms

  abbrev pub shops : List (HctIndex movies) → List ℤ
  shops res = map (λ m. (element movies m).shop) res

  abbrev pub shops_and_movies : List (HctIndex movies) → List (ℤ × ℤ)
  shops_and_movies res = map (λ m. ((element movies m).shop, (element movies m).movie)) res

  -- With what the cache has and, if it has nothing, what the shops have.
  abbrev pub search_in :
      ℤ → System movies → Option (List ℤ) → Option (TopK (HctIndex movies)) → List ℤ × System movies
  search_in movie s (some ans) h = (ans, s)
  search_in movie s none none = ([], s)
  search_in movie s none (some h) =
      (shops h.top_k, record s { search_cache = insert movie (shops h.top_k) s.search_cache })

  unfoldable pub search : ℤ → System movies → List ℤ × System movies
  unfolding lookup insert
  search movie s = search_in movie s (lookup movie s.search_cache) (lookup movie s.unrented_movies)

  -- What `rent` writes, once it has the copy and the `TopK` of the movie.
  unfoldable pub lent_out :
      ℤ → HctIndex movies → TopK (HctIndex movies) → System movies → System movies
  unfolding insert erase remove add
  lent_out movie w h s = record s {
    unrented_movies = insert movie (remove (index_lt movies) w h) s.unrented_movies;
    rented_movies = add (index_lt movies) w s.rented_movies;
    report_cache = none;
    search_cache = erase movie s.search_cache;
  }

  unfoldable pub rent : ℤ → ℤ → System movies → Result (Raised movies) (System movies)
  unfolding lookup hct_index movie_index lent_out
  rent shop movie s = movie_index shop movie s >>= λ i.
      wrapped i s >>= λ w. unrented_of movie s >>= λ h. ok (lent_out movie w h s)

  -- What `drop` writes.
  unfoldable pub put_back :
      ℤ → HctIndex movies → TopK (HctIndex movies) → System movies → System movies
  unfolding insert erase remove add
  put_back movie w h s = record s {
    unrented_movies = insert movie (add (index_lt movies) w h) s.unrented_movies;
    rented_movies = remove (index_lt movies) w s.rented_movies;
    report_cache = none;
    search_cache = erase movie s.search_cache;
  }

  unfoldable pub drop : ℤ → ℤ → System movies → Result (Raised movies) (System movies)
  unfolding lookup hct_index movie_index put_back
  drop shop movie s = movie_index shop movie s >>= λ i.
      wrapped i s >>= λ w. unrented_of movie s >>= λ h. ok (put_back movie w h s)

  abbrev pub report_in : System movies → Option (List (ℤ × ℤ)) → List (ℤ × ℤ) × System movies
  report_in s (some ans) = (ans, s)
  report_in s none =
      let ans = shops_and_movies s.rented_movies.top_k in
      (ans, record s { report_cache = some ans })

  abbrev pub report : System movies → List (ℤ × ℤ) × System movies
  report s = report_in s s.report_cache

-- `MovieRentingSystem(n, entries)`, with the movies of the entries.
unfoldable pub new : (movies : List Movie) → Result (Raised movies) (System movies)
unfolding load top_of
new movies = load 0 movies (record {
  rented_movies = top_of (index_lt movies) 5 [];
  unrented_movies = [];
  inverted_index = [];
  search_cache = [];
  report_cache = none;
})
