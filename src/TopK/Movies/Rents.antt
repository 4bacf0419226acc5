-- ===== src/TopK/Movies/Rents.antt =====
-- Each method keeps the caches and the `TopK`s true to the stock.
use code_recipes.Common.{
  ℕ, ◌≡◌, refl, sym, ap, ◌∙◌, true, false, List, [], take, Option, none, some,
}
use code_recipes.Common.Eq.{int_eq}
use code_recipes.Common.Int.{ℤ}
use code_recipes.Common.Sort.{elem}
use code_recipes.Common.Result.{ok}
use code_recipes.Common.Dict.{Dict, lookup, lookup-nil, insert-NoDup}
use code_recipes.Common.Order.{Order}
use code_recipes.TopK.Heap.{TopK}
use code_recipes.TopK.Pop.{elem-nil}
use code_recipes.TopK.Movies.Index.{Movie, HctIndex, hct_index, index_lt, index_eq}
use code_recipes.TopK.Movies.System.{
  System, shops, shops_and_movies, or_empty, index_in, search_in, report_in, search, report,
  movie_index, lent_out, rent, put_back, drop,
}
use code_recipes.TopK.Movies.Stock.{
  Stock, lend, return, KeptAt, CachedAt, Kept, ReportedAt, Stocked, Kept-take,
}
use code_recipes.TopK.Movies.Changes.{insert-CachedAt, lent_out-Stocked, put_back-Stocked}

module _ {movies : List Movie} (o : Order (index_lt movies)) (places : ℤ → ℤ → Option ℕ) where
  -- A copy that the index has is found.
  index_in-ok :
      (shop movie : ℤ) (s : System movies) (i : ℕ) (row : Option (Dict ℤ ℕ))
      → lookup movie (or_empty row) ≡ some i
      → index_in shop movie s row ≡ ok i
  index_in-ok shop movie s i none q =
      (let none_there : ◌≡◌ {A = Option ℕ} (lookup movie []) none = lookup-nil movie in cc)
  index_in-ok shop movie s i (some row) q = rw q refl

  movie_index-ok :
      (shop movie : ℤ) (s : System movies) (i : ℕ)
      → lookup movie (or_empty (lookup shop s.inverted_index)) ≡ some i
      → movie_index shop movie s ≡ ok i
  unfolding movie_index
  movie_index-ok shop movie s i q = index_in-ok shop movie s i (lookup shop s.inverted_index) q

  rent-steps :
      (shop movie : ℤ) (s : System movies) (i : ℕ) (w : HctIndex movies)
      (h : TopK (HctIndex movies))
      → movie_index shop movie s ≡ ok i
      → hct_index movies i ≡ some w
      → lookup movie s.unrented_movies ≡ some h
      → rent shop movie s ≡ ok (lent_out movie w h s)
  unfolding rent
  rent-steps shop movie s i w h p q r = rw (p, q, r) refl

  drop-steps :
      (shop movie : ℤ) (s : System movies) (i : ℕ) (w : HctIndex movies)
      (h : TopK (HctIndex movies))
      → movie_index shop movie s ≡ ok i
      → hct_index movies i ≡ some w
      → lookup movie s.unrented_movies ≡ some h
      → drop shop movie s ≡ ok (put_back movie w h s)
  unfolding drop
  drop-steps shop movie s i w h p q r = rw (p, q, r) refl

  search_in-Stocked :
      (movie : ℤ) (s : System movies) (st : Stock movies)
      → Stocked o places s st
      → (ans : Option (List ℤ)) (h : Option (TopK (HctIndex movies)))
      → CachedAt o ans (st.unrented movie)
      → KeptAt o h (st.unrented movie)
      → ((search_in movie s ans h).0 ≡ shops (take 5 (st.unrented movie)))
        × Stocked o places (search_in movie s ans h).1 st
  search_in-Stocked movie s st z (some ans) h c k = (c, z)
  search_in-Stocked movie s st z none none c k = (ap (λ all. shops (take 5 all)) (sym k), z)
  search_in-Stocked movie s st z none (some h) c k =
      let fresh : shops h.top_k ≡ shops (take 5 (st.unrented movie)) =
        ap shops (Kept-take o h (st.unrented movie) k) in
      (
        fresh,
        record {
          unrented = z.unrented;
          rented = z.rented;
          placed = z.placed;
          known = z.known;
          one_each = insert-NoDup movie _ s.search_cache z.one_each;
          cached = insert-CachedAt o places movie (shops h.top_k) s st z fresh;
          reported = z.reported;
        },
      )

  pub search-Stocked :
      (movie : ℤ) (s : System movies) (st : Stock movies)
      → Stocked o places s st
      → ((search movie s).0 ≡ shops (take 5 (st.unrented movie)))
        × Stocked o places (search movie s).1 st
  unfolding search
  search-Stocked movie s st z =
      search_in-Stocked movie s st z _ _ (z.cached movie) (z.unrented movie)

  report_in-Stocked :
      (s : System movies) (st : Stock movies)
      → Stocked o places s st
      → (ans : Option (List (ℤ × ℤ))) → ReportedAt o ans st.rented
      → ((report_in s ans).0 ≡ shops_and_movies (take 5 st.rented))
        × Stocked o places (report_in s ans).1 st
  report_in-Stocked s st z (some ans) r = (r, z)
  report_in-Stocked s st z none r =
      let fresh = ap shops_and_movies (Kept-take o s.rented_movies st.rented z.rented) in
      (
        fresh,
        record {
          unrented = z.unrented;
          rented = z.rented;
          placed = z.placed;
          known = z.known;
          one_each = z.one_each;
          cached = z.cached;
          reported = fresh;
        },
      )

  pub report-Stocked :
      (s : System movies) (st : Stock movies)
      → Stocked o places s st
      → ((report s).0 ≡ shops_and_movies (take 5 st.rented)) × Stocked o places (report s).1 st
  report-Stocked s st z = report_in-Stocked s st z s.report_cache z.reported

  -- A copy in the shops is in the `TopK` of its movie.
  unrented-some :
      (movie : ℤ) (w : HctIndex movies) (all : List (HctIndex movies))
      (h : Option (TopK (HctIndex movies)))
      → KeptAt o h all
      → elem w all ≡ true
      → (kept : TopK (HctIndex movies)) × (h ≡ some kept) × Kept o kept all
  unrented-some movie w all none k i =
      (let out = elem-nil (index_lt movies) o w in let there = ap (elem w) (sym k) ∙ i in cc)
  unrented-some movie w all (some h) k i = (h, refl, k)

  pub rent-Stocked :
      (shop movie : ℤ) (i : ℕ) (w : HctIndex movies) (s : System movies) (st : Stock movies)
      → Stocked o places s st
      → places shop movie ≡ some i
      → hct_index movies i ≡ some w
      → elem w (st.unrented movie) ≡ true
      → elem w st.rented ≡ false
      → (left : System movies) × (rent shop movie s ≡ ok left)
        × Stocked o places left (lend movie w st)
  rent-Stocked shop movie i w s st z p q there out =
      let index = movie_index-ok shop movie s i (z.placed shop movie ∙ p) in
      let kept = unrented-some movie w (st.unrented movie) _ (z.unrented movie) there in
      (
        _,
        rent-steps shop movie s i w kept.0 index q kept.1,
        lent_out-Stocked o places movie w kept.0 s st z kept.2 there out,
      )

  known-some :
      (shop movie : ℤ) (i : ℕ) (all : List (HctIndex movies)) (h : Option (TopK (HctIndex movies)))
      → KeptAt o h all
      → (h ≡ none → places shop movie ≡ none)
      → places shop movie ≡ some i
      → (kept : TopK (HctIndex movies)) × (h ≡ some kept) × Kept o kept all
  known-some shop movie i all none k f p = (let out = f refl in cc)
  known-some shop movie i all (some h) k f p = (h, refl, k)

  pub drop-Stocked :
      (shop movie : ℤ) (i : ℕ) (w : HctIndex movies) (s : System movies) (st : Stock movies)
      → Stocked o places s st
      → places shop movie ≡ some i
      → hct_index movies i ≡ some w
      → elem w (st.unrented movie) ≡ false
      → elem w st.rented ≡ true
      → (left : System movies) × (drop shop movie s ≡ ok left)
        × Stocked o places left (return movie w st)
  drop-Stocked shop movie i w s st z p q out there =
      let index = movie_index-ok shop movie s i (z.placed shop movie ∙ p) in
      let kept =
        known-some shop movie i (st.unrented movie) _ (z.unrented movie) (z.known shop movie) p in
      (
        _,
        drop-steps shop movie s i w kept.0 index q kept.1,
        put_back-Stocked o places movie w kept.0 s st z kept.2 out there,
      )
