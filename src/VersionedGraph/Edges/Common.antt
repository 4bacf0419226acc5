-- ===== src/VersionedGraph/Edges/Common.antt =====
-- The connections that two nodes share.
use code_recipes.Common.{
  ℕ, ◌≡◌, refl, sym, ◌∙◌, ap, Bool, true, false, ◌&&◌, List, [], ◌∷◌, arith, filter, Bool-cases,
  inl, inr,
}
use code_recipes.Common.Int.{ℤ, ltb_ℤ}
use code_recipes.Common.Eq.{int_eq, int_beq, int_beq_iff}
use code_recipes.Common.Sort.{elem, elem-filter}
use code_recipes.Common.Result.{ok}
use code_recipes.VersionedGraph.Graph.History.{Change, after}
use code_recipes.VersionedGraph.Graph.History.Answers.{present_from}
use code_recipes.VersionedGraph.Edges.{skip_less, common, common_connections}
use code_recipes.VersionedGraph.Edges.Keys.{AllMore, IsAscending, IsAscending-filter}
use code_recipes.VersionedGraph.Edges.Contract.{list_edges-after}

-- Skipping loses nothing that is not less.
elem-skip_less : (a x : ℤ) (bs : List ℤ) → ltb_ℤ x a ≡ false → elem x (skip_less a bs) ≡ elem x bs
unfolding elem skip_less
elem-skip_less a x [] h = refl
elem-skip_less a x (b ∷ bs) h = ground (arith, elem-skip_less a x bs h, int_beq_iff b x)

AllMore-trans : (x y : ℤ) (ys : List ℤ) → ltb_ℤ x y ≡ true → AllMore y ys → AllMore x ys
AllMore-trans x y [] h m = tt
AllMore-trans x y (z ∷ ys) h m = ground (arith, AllMore-trans x y ys h m.1)

AllMore-not-elem : (x : ℤ) (ys : List ℤ) → AllMore x ys → elem x ys ≡ false
unfolding elem
AllMore-not-elem x [] m = refl
AllMore-not-elem x (y ∷ ys) m = ground (arith, AllMore-not-elem x ys m.1, int_beq_iff y x)

skip_less-IsAscending : (a : ℤ) (bs : List ℤ) → IsAscending bs → IsAscending (skip_less a bs)
unfolding skip_less
skip_less-IsAscending a [] h = tt
skip_less-IsAscending a (b ∷ bs) h = ground (arith, skip_less-IsAscending a bs h.1)

-- What is left begins with an entry that is not less.
abbrev StartsFrom : ℤ → List ℤ → Type 0
StartsFrom a [] = Unit
StartsFrom a (b ∷ bs) = ltb_ℤ b a ≡ false

skip_less-StartsFrom : (a : ℤ) (bs : List ℤ) → StartsFrom a (skip_less a bs)
unfolding skip_less
skip_less-StartsFrom a [] = tt
skip_less-StartsFrom a (b ∷ bs) = ground (arith, skip_less-StartsFrom a bs)

filter-none : (f : ℤ → Bool) (xs : List ℤ) → ((x : ℤ) → f x ≡ false) → filter f xs ≡ []
filter-none f [] h = refl
filter-none f (x ∷ xs) h = rw (h x) (filter-none f xs h)

filter-agree :
    (f g : ℤ → Bool) (a : ℤ) (xs : List ℤ)
    → AllMore a xs
    → ((x : ℤ) → ltb_ℤ a x ≡ true → f x ≡ g x)
    → filter f xs ≡ filter g xs
filter-agree f g a [] m h = refl
filter-agree f g a (x ∷ xs) m h = rw (h x m.0, filter-agree f g a xs m.1 h)

-- One round of the merge, on what is left of the second list.
common-round :
    (a : ℤ) (as' bs s : List ℤ)
    → skip_less a bs ≡ s
    → StartsFrom a s
    → IsAscending s
    → common as' s ≡ filter (λ x. elem x s) as'
    → common (a ∷ as') bs ≡ filter (λ x. elem x s) (a ∷ as')
unfolding common elem
common-round a as' bs [] e from asc ih =
    rw (e, common) (sym (filter-none (λ x. false) as' (λ x. refl)))
common-round a as' bs (b ∷ rest) e from asc ih = elim (Bool-cases (int_beq b a)) [
  | inl same ↦ rw (e, common) (rw (same, ih))
  | inr other ↦
      let more : ltb_ℤ a b ≡ true = ground (arith, int_beq_iff b a) in
      let absent = AllMore-not-elem a rest (AllMore-trans a b rest more asc.0) in
      rw (e, common) (rw (other, absent, ih))
]

-- On strictly ascending lists the merge keeps the entries of the first that are in the second.
common-filter :
    (as' bs : List ℤ)
    → IsAscending as'
    → IsAscending bs
    → common as' bs ≡ filter (λ a. elem a bs) as'
unfolding common
common-filter [] bs p q = refl
common-filter (a ∷ as') bs p q =
    let s = skip_less a bs in
    let asc = skip_less-IsAscending a bs q in
    common-round a as' bs s refl (skip_less-StartsFrom a bs) asc (common-filter as' s p.1 asc)
    ∙ rw (elem-skip_less a a bs (ground arith)) (
        rw (
          filter-agree (λ x. elem x s) (λ x. elem x bs) a as' p.0
            (λ x h. elem-skip_less a x bs (ground arith))))

-- After any history of changes, `common_connections` lists, in ascending order and without an
-- exception, exactly the ends to which both nodes have an edge at the version asked for.
pub common_connections-after :
    (n : ℕ) (h : List Change) (a b v : ℤ)
    → (es : List ℤ) × (common_connections (after n h) a b v ≡ ok es)
      × IsAscending es
      × ((end : ℤ) → elem end es ≡ (present_from n a end v h && present_from n b end v h))
unfolding common_connections
common_connections-after n h a b v =
    let (bs, listed_b, asc_b, elem_b) = list_edges-after n h b v in
    let (as', listed_a, asc_a, elem_a) = list_edges-after n h a v in
    let shared = common-filter as' bs asc_a asc_b in
    (
      filter (λ x. elem x bs) as',
      rw (listed_b, listed_a) (ap ok shared),
      IsAscending-filter _ as' asc_a,
      λ end. elem-filter (λ x. elem x bs) end as' ∙ rw (elem_a end, elem_b end),
    )
