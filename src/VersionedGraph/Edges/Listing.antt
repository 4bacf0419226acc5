-- ===== src/VersionedGraph/Edges/Listing.antt =====
-- What an iterator lists.
use code_recipes.Common.{
  ℕ, zero, suc, ◌+◌, ◌-◌, ◌≤◌, ◌<◌, ◌≡◌, ◌⊎◌, sym, ◌∙◌, ap, Bool, some, List, [], ◌∷◌, arith, ltb,
  if◌then◌else◌, length, get_elem?, drop, drop-cons, drop-all, filter, Bool-cases, inl, inr,
}
use code_recipes.Common.Int.{ℤ}
use code_recipes.Common.Bisect.{get_elem?-some}
use code_recipes.Common.Result.{ok, err}
use code_recipes.VersionedGraph.Search.{Run, stop}
use code_recipes.VersionedGraph.Graph.{Row}
use code_recipes.VersionedGraph.Edges.{EdgeIterator, live_at, next_loop, next_edge, drain}

module _ (row : Row) (ends : List ℤ) (v : ℤ) (live : ℤ → Bool)
    (tests : (i : ℕ) (end : ℤ)
      → get_elem? ends i ≡ some end
      → live_at v row end ≡ ok (live end)) where
  abbrev pub at : ℕ → EdgeIterator
  at p = record { ends = ends; ptr = p; target_version = v }

  -- The edges that are still to come.
  abbrev pub left : ℕ → List ℤ
  left p = filter live (drop p ends)

  -- A step ends the iteration, or gives the first edge that is left.
  Steps : ℕ → Run (ℤ × EdgeIterator) → Type 0
  Steps p r =
      ((left p ≡ []) × (r ≡ err stop))
      ⊎ ((k : ℕ) × (end : ℤ) × (r ≡ ok (end, at k))
          × (left p ≡ end ∷ left k)
          × (p < k)
          × (k ≤ length ends))

  left-cons :
      (p : ℕ) (end : ℤ)
      → get_elem? ends p ≡ some end
      → left p ≡ (if live end then end ∷ left (p + 1) else left (p + 1))
  left-cons p end h = let next : p + 1 ≡ suc p = omega arith in rw (next, drop-cons ends p h)

  Steps-skip :
      (p : ℕ) (r : Run (ℤ × EdgeIterator)) → left p ≡ left (p + 1) → Steps (p + 1) r → Steps p r
  unfolding Steps
  Steps-skip p r e (inl (none_left, s)) = inl (e ∙ none_left, s)
  Steps-skip p r e (inr (k, end, s, l, lt, le)) = inr (k, end, s, e ∙ l, omega arith, le)

  next_loop-Steps : (fuel p : ℕ) → length ends - p < fuel → Steps p (next_loop fuel row (at p))
  unfolding next_loop Steps
  next_loop-Steps zero p f = absurd (omega arith)
  next_loop-Steps (suc fuel) p f = elim (Bool-cases (ltb p (length ends))) [
    | inr done ↦ inl (rw (drop-all ends p (ground arith)), rw done)
    | inl more ↦
        let (end, at_p) = get_elem?-some ends p (ground arith) in
        let cons = left-cons p end at_p in
        elim (Bool-cases (live end)) [
          | inl here ↦ inr (
            p + 1,
            end,
            rw (more, at_p, tests p end at_p, here),
            cons ∙ rw here,
            omega arith,
            ground arith,
          )
          | inr dead ↦
              rw (more, at_p, tests p end at_p, dead)
                (Steps-skip p (next_loop fuel row (at (p + 1))) (cons ∙ rw dead)
                  (next_loop-Steps fuel (p + 1) (ground arith)))
        ]
  ]

  drain-step :
      (fuel p : ℕ)
      → Steps p (next_edge row (at p))
      → ((k : ℕ) → p < k → k ≤ length ends → drain fuel row (at k) ≡ ok (left k))
      → drain (suc fuel) row (at p) ≡ ok (left p)
  unfolding drain Steps
  drain-step fuel p (inl (none_left, s)) rest = rw (s, drain) (ap ok (sym none_left))
  drain-step fuel p (inr (k, end, s, l, lt, le)) rest = rw (s, drain, rest k lt le) (ap ok (sym l))

  pub drain-left : (fuel p : ℕ) → length ends - p < fuel → drain fuel row (at p) ≡ ok (left p)
  unfolding drain next_edge Steps
  drain-left zero p f = absurd (omega arith)
  drain-left (suc fuel) p f =
      drain-step fuel p (next_loop-Steps (length ends - p + 1) p (omega arith))
        (λ k lt le. drain-left fuel k (omega arith))
