-- ===== src/TopK/Movies/Shelves.antt =====
-- One more movie is indexed and shelved.
use code_recipes.Common.{
  ℕ, suc, ◌<◌, ◌≡◌, refl, sym, ap, ◌∙◌, true, false, ltb, ◌==◌, ==_iff, ◌&&◌, List, [], ◌∷◌, arith,
  if◌then◌else◌, length, Option, none, some, Bool-cases, ◌⊎◌, inl, inr,
}
use code_recipes.Common.Eq.{int_eq, int_beq, int_beq_iff}
use code_recipes.Common.Int.{ℤ}
use code_recipes.Common.Sort.{elem, sorted, insert_sorted, elem-insert_sorted}
use code_recipes.Common.Dict.{Dict, lookup, insert, lookup-insert, lookup-nil}
use code_recipes.Common.Order.{Order}
use code_recipes.TopK.Heap.{TopK}
use code_recipes.TopK.Pop.{elem-nil}
use code_recipes.TopK.History.{top_of-Holds, top_of-k}
use code_recipes.TopK.Movies.Index.{
  Movie, HctIndex, checked, decided, hct_index, index_lt, index_eq,
}
use code_recipes.TopK.Movies.System.{System, or_empty, with_copy, indexed, stored}
use code_recipes.TopK.Movies.Stock.{Stock, shelve, KeptAt, CachedAt, Kept, Stocked}
use code_recipes.TopK.Movies.Changes.{add-Kept, insert-KeptAt}

module _ {movies : List Movie} (o : Order (index_lt movies)) where
  abbrev pub placed_too : (ℤ → ℤ → Option ℕ) → ℕ → Movie → ℤ → ℤ → Option ℕ
  placed_too places i m shop movie =
      if int_beq m.shop shop && int_beq m.movie movie then some i else places shop movie

  abbrev pub place_all : (ℤ → ℤ → Option ℕ) → ℕ → List Movie → ℤ → ℤ → Option ℕ
  place_all places i [] = places
  place_all places i (m ∷ ms) = place_all (placed_too places i m) (suc i) ms

  pub checked-some :
      (i : ℕ) (c : (ltb i (length movies) ≡ true) ⊎ (ltb i (length movies) ≡ false))
      → i < length movies
      → (w : HctIndex movies) × (checked movies i c ≡ some w) × (w.idx ≡ i)
  checked-some i (inl p) l = (_, refl, refl)
  checked-some i (inr p) l = absurd (ground arith)

  pub hct_index-some :
      (i : ℕ)
      → i < length movies
      → (w : HctIndex movies) × (hct_index movies i ≡ some w) × (w.idx ≡ i)
  unfolding hct_index
  hct_index-some i l = checked-some i (decided (ltb i (length movies))) l

  -- All copies on the shelves come before place `i`.
  abbrev pub Before : ℕ → Stock movies → Type 0
  Before i st = (m : ℤ) (w : HctIndex movies) → elem w (st.unrented m) ≡ true → w.idx < i

  pub shelve-Before :
      (i : ℕ) (m : ℤ) (w : HctIndex movies) (st : Stock movies)
      → w.idx ≡ i
      → Before i st
      → Before (suc i) (shelve m (some w) st)
  shelve-Before i m w st q b n v e = elim (Bool-cases (int_beq m n)) [
    | inl same ↦
        let inside : elem v (insert_sorted (index_lt movies) w (st.unrented m)) ≡ true =
          ap (λ l. elem v l) (rw same refl) ∙ e in
        elim (Bool-cases (w.idx == v.idx)) [
          | inl one ↦ (let same_idx = (==_iff w.idx v.idx).0 one in omega arith)
          | inr other ↦
              let old : elem v (st.unrented m) ≡ true =
                ground (arith, elem-insert_sorted (index_lt movies) v w (st.unrented m)) in
              omega (arith, b m v old)
        ]
    | inr other ↦
        (let old : elem v (st.unrented n) ≡ true = ap (λ l. elem v l) (rw other refl) ∙ e in
          omega (arith, b n v old))
  ]

  pub with_copy-Kept :
      (w : HctIndex movies) (all : List (HctIndex movies)) (h : Option (TopK (HctIndex movies)))
      → KeptAt o h all
      → elem w all ≡ false
      → Kept o (with_copy w h) (insert_sorted (index_lt movies) w all)
  unfolding insert_sorted sorted
  with_copy-Kept w all none k n =
      let h = top_of-Holds (index_lt movies) o 5 (w ∷ []) (elem-nil (index_lt movies) o w, tt) in
      rw k (h, top_of-k (index_lt movies) o 5 (w ∷ []))
  with_copy-Kept w all (some h) k n = add-Kept o (λ s m. none) w h all k n

  pub indexed-placed :
      (places : ℤ → ℤ → Option ℕ) (i : ℕ) (m : Movie) (s : System movies) (st : Stock movies)
      → Stocked o places s st
      → (shop movie : ℤ)
      → lookup movie (or_empty (lookup shop (indexed i m s).inverted_index))
        ≡ placed_too places i m shop movie
  indexed-placed places i m s st z shop movie = elim (Bool-cases (int_beq m.shop shop)) [
    | inl same ↦
        let row = or_empty (lookup m.shop s.inverted_index) in
        let written = lookup-insert m.movie movie i row in
        let before =
          ap (λ x. lookup movie (or_empty (lookup x s.inverted_index)))
            ((int_beq_iff m.shop shop).0 same)
          ∙ z.placed shop movie in
        rw (lookup-insert m.shop shop (insert m.movie i row) s.inverted_index, same)
          (written ∙ ap (λ l. if int_beq m.movie movie then some i else l) before)
    | inr other ↦
        rw
          (
            lookup-insert m.shop shop (insert m.movie i (or_empty (lookup m.shop s.inverted_index)))
                s.inverted_index,
            other,
          )
          (z.placed shop movie)
  ]

  pub stored-known :
      (places : ℤ → ℤ → Option ℕ) (i : ℕ) (w : HctIndex movies) (m : Movie) (s : System movies)
      (st : Stock movies)
      → Stocked o places s st
      → (shop movie : ℤ) → lookup movie (stored w m s).unrented_movies ≡ none
      → placed_too places i m shop movie ≡ none
  stored-known places i w m s st z shop movie q =
      let written = with_copy w (lookup m.movie s.unrented_movies) in
      let other : int_beq m.movie movie ≡ false = elim (Bool-cases (int_beq m.movie movie)) [
        | inl same ↦
            let there : lookup movie (insert m.movie written s.unrented_movies) ≡ some written =
              lookup-insert m.movie movie written s.unrented_movies ∙ rw same refl in
            cc
        | inr fine ↦ fine
      ] in
      let before =
        z.known shop movie
          (sym (lookup-insert m.movie movie written s.unrented_movies ∙ rw other refl) ∙ q) in
      ground arith

  pub empty-CachedAt :
      (cache : Dict ℤ (List ℤ)) (all : List (HctIndex movies)) (m : ℤ)
      → cache ≡ []
      → CachedAt o (lookup m cache) all
  empty-CachedAt cache all m c =
      let nothing : ◌≡◌ {A = Option (List ℤ)} (lookup m []) none = lookup-nil m in
      rw (c, nothing) tt

  pub stored-Stocked :
      (places : ℤ → ℤ → Option ℕ) (i : ℕ) (w : HctIndex movies) (m : Movie) (s : System movies)
      (st : Stock movies)
      → Stocked o places s st
      → elem w (st.unrented m.movie) ≡ false
      → s.search_cache ≡ []
      → Stocked o (placed_too places i m) (stored w m (indexed i m s)) (shelve m.movie (some w) st)
  stored-Stocked places i w m s st z n c = record {
    unrented =
        insert-KeptAt o places m.movie _ s st _ z
          (with_copy-Kept w (st.unrented m.movie) _ (z.unrented m.movie) n);
    rented = z.rented;
    placed = indexed-placed places i m s st z;
    known = stored-known places i w m s st z;
    one_each = z.one_each;
    cached = λ n. empty-CachedAt s.search_cache _ n c;
    reported = z.reported;
  }
