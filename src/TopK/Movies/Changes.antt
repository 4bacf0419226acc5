-- ===== src/TopK/Movies/Changes.antt =====
-- What `rent` and `drop` write is true to the stock they leave.
use code_recipes.Common.{
  ℕ, ◌≡◌, refl, sym, ap, ◌∙◌, true, false, List, take, Option, none, some, Bool-cases, inl, inr,
}
use code_recipes.Common.Eq.{int_eq, int_beq, int_beq_iff}
use code_recipes.Common.Int.{ℤ}
use code_recipes.Common.Sort.{elem, insert_sorted}
use code_recipes.Common.Dict.{lookup, insert, erase, lookup-insert, lookup-erase, erase-NoDup}
use code_recipes.Common.Order.{Order}
use code_recipes.TopK.Heap.{TopK, discard, add, remove}
use code_recipes.TopK.Refines.Add.{add-Holds}
use code_recipes.TopK.Refines.Remove.{remove-Holds}
use code_recipes.TopK.History.{added, removed, change-k}
use code_recipes.TopK.Movies.Index.{Movie, HctIndex, index_lt, index_eq}
use code_recipes.TopK.Movies.System.{System, shops, lent_out, put_back}
use code_recipes.TopK.Movies.Stock.{Stock, update, lend, return, KeptAt, CachedAt, Kept, Stocked}

module _ {movies : List Movie} (o : Order (index_lt movies)) (places : ℤ → ℤ → Option ℕ) where
  pub add-Kept :
      (w : HctIndex movies) (h : TopK (HctIndex movies)) (all : List (HctIndex movies))
      → Kept o h all
      → elem w all ≡ false
      → Kept o (add (index_lt movies) w h) (insert_sorted (index_lt movies) w all)
  add-Kept w h all k n =
      (add-Holds (index_lt movies) o w h all k.0 n, change-k (index_lt movies) o (added w) h ∙ k.1)

  pub remove-Kept :
      (w : HctIndex movies) (h : TopK (HctIndex movies)) (all : List (HctIndex movies))
      → Kept o h all
      → elem w all ≡ true
      → Kept o (remove (index_lt movies) w h) (discard (index_lt movies) w all)
  remove-Kept w h all k i = (
    remove-Holds (index_lt movies) o w h all k.0 i,
    change-k (index_lt movies) o (removed w) h ∙ k.1,
  )

  -- One key of the dict is written, and its cached answer dropped.
  pub insert-KeptAt :
      (movie : ℤ) (h : TopK (HctIndex movies)) (s : System movies) (st : Stock movies)
      (all : List (HctIndex movies))
      → Stocked o places s st
      → Kept o h all
      → (m : ℤ)
      → KeptAt o (lookup m (insert movie h s.unrented_movies)) (update st.unrented movie all m)
  insert-KeptAt movie h s st all z k m = elim (Bool-cases (int_beq movie m)) [
    | inl same ↦ rw (lookup-insert movie m h s.unrented_movies, same) k
    | inr other ↦ rw (lookup-insert movie m h s.unrented_movies, other) (z.unrented m)
  ]

  pub insert-known :
      (movie : ℤ) (h : TopK (HctIndex movies)) (s : System movies) (st : Stock movies)
      → Stocked o places s st
      → (shop m : ℤ) → lookup m (insert movie h s.unrented_movies) ≡ none
      → places shop m ≡ none
  insert-known movie h s st z shop m q = elim (Bool-cases (int_beq movie m)) [
    | inl same ↦
        let there : lookup m (insert movie h s.unrented_movies) ≡ some h =
          lookup-insert movie m h s.unrented_movies ∙ rw same refl in
        cc
    | inr other ↦
        z.known shop m (sym (lookup-insert movie m h s.unrented_movies ∙ rw other refl) ∙ q)
  ]

  pub insert-CachedAt :
      (movie : ℤ) (ans : List ℤ) (s : System movies) (st : Stock movies)
      → Stocked o places s st
      → ans ≡ shops (take 5 (st.unrented movie))
      → (m : ℤ) → CachedAt o (lookup m (insert movie ans s.search_cache)) (st.unrented m)
  insert-CachedAt movie ans s st z fresh m = elim (Bool-cases (int_beq movie m)) [
    | inl same ↦
        rw (lookup-insert movie m ans s.search_cache, same)
          (fresh ∙ ap (λ n. shops (take 5 (st.unrented n))) ((int_beq_iff movie m).0 same))
    | inr other ↦ rw (lookup-insert movie m ans s.search_cache, other) (z.cached m)
  ]

  pub erase-CachedAt :
      (movie : ℤ) (s : System movies) (st : Stock movies) (all : List (HctIndex movies))
      → Stocked o places s st
      → (m : ℤ)
      → CachedAt o (lookup m (erase movie s.search_cache)) (update st.unrented movie all m)
  erase-CachedAt movie s st all z m = elim (Bool-cases (int_beq movie m)) [
    | inl same ↦ rw (lookup-erase movie m s.search_cache z.one_each, same) tt
    | inr other ↦ rw (lookup-erase movie m s.search_cache z.one_each, other) (z.cached m)
  ]

  pub lent_out-Stocked :
      (movie : ℤ) (w : HctIndex movies) (h : TopK (HctIndex movies)) (s : System movies)
      (st : Stock movies)
      → Stocked o places s st
      → Kept o h (st.unrented movie)
      → elem w (st.unrented movie) ≡ true
      → elem w st.rented ≡ false
      → Stocked o places (lent_out movie w h s) (lend movie w st)
  unfolding lent_out
  lent_out-Stocked movie w h s st z k i n = record {
    unrented =
        insert-KeptAt movie (remove (index_lt movies) w h) s st _ z
          (remove-Kept w h (st.unrented movie) k i);
    rented = add-Kept w s.rented_movies st.rented z.rented n;
    placed = z.placed;
    known = insert-known movie _ s st z;
    one_each = erase-NoDup movie s.search_cache z.one_each;
    cached = erase-CachedAt movie s st _ z;
    reported = tt;
  }

  pub put_back-Stocked :
      (movie : ℤ) (w : HctIndex movies) (h : TopK (HctIndex movies)) (s : System movies)
      (st : Stock movies)
      → Stocked o places s st
      → Kept o h (st.unrented movie)
      → elem w (st.unrented movie) ≡ false
      → elem w st.rented ≡ true
      → Stocked o places (put_back movie w h s) (return movie w st)
  unfolding put_back
  put_back-Stocked movie w h s st z k n i = record {
    unrented =
        insert-KeptAt movie (add (index_lt movies) w h) s st _ z
          (add-Kept w h (st.unrented movie) k n);
    rented = remove-Kept w s.rented_movies st.rented z.rented i;
    placed = z.placed;
    known = insert-known movie _ s st z;
    one_each = erase-NoDup movie s.search_cache z.one_each;
    cached = erase-CachedAt movie s st _ z;
    reported = tt;
  }
