-- ===== src/VersionedGraph/Bfs/Distance.antt =====
-- The frontiers of `bfs` are the nodes at each distance.
use code_recipes.Common.{
  ℕ, zero, suc, ◌≤◌, ◌<◌, ◌≡◌, ◌↔◌, refl, sym, ap, subst, leb, length, ◌∙◌, Bool, true, false, not,
  ◌&&◌, ◌||◌, arith, List, [], ◌∷◌, Bool-cases, inl, inr,
}
use code_recipes.Common.Eq.{int_eq, int_beq, int_beq_iff}
use code_recipes.Common.Int.{ℤ}
use code_recipes.Common.Sort.{elem}
use code_recipes.Common.Result.{ok, ◌>>=◌}
use code_recipes.VersionedGraph.Search.{Run}
use mathlib.Core.Path.{fun_ext}
use code_recipes.VersionedGraph.Graph.History.{Change, after}
use code_recipes.VersionedGraph.Graph.History.Answers.{present_from}
use code_recipes.VersionedGraph.Edges.{list_edges}
use code_recipes.VersionedGraph.Edges.Contract.{list_edges-after}
use code_recipes.VersionedGraph.Bfs.{visit, visit_all, bfs_loop, bfs}
use code_recipes.VersionedGraph.Bfs.Visit.{true-false, elem-cons, elem-nil, visit-elem}

module _ (linked : ℤ → ℤ → Bool) (start : ℤ) where
  -- A walk of so many edges from the start.
  pub data Walk : ℕ → ℤ → Type 0 where
    here : Walk 0 start
    on : {d : ℕ} {w u : ℤ} → Walk d w → linked w u ≡ true → Walk (suc d) u

  -- `u` is as far from the start as `d` edges, and no nearer.
  abbrev pub AtDistance : ℕ → ℤ → Type 0
  AtDistance d u = Walk d u × ((k : ℕ) → k < d → Walk k u → ⊥)

  -- The lists hold the nodes at the distances from `d` on.
  abbrev pub Frontiers : ℕ → List (List ℤ) → Type 0
  Frontiers d [] = Unit
  Frontiers d (l ∷ ls) = ((x : ℤ) → (elem x l ≡ true) ↔ AtDistance d x) × Frontiers (suc d) ls

  zero_walk : (k : ℕ) (x : ℤ) → k ≡ 0 → Walk k x → start ≡ x
  zero_walk _ _ e here = refl
  zero_walk _ _ e (on walk edge) = absurd (omega arith)

module _ (edges : ℤ → List ℤ) where
  abbrev link : ℤ → ℤ → Bool
  link w u = elem u (edges w)

  -- Whether some of the nodes has an edge to `x`.
  abbrev pub leads_to : ℤ → List ℤ → Bool
  leads_to x [] = false
  leads_to x (n ∷ ns) = elem x (edges n) || leads_to x ns

  reaches_or : (v s : Bool) (r : Bool) → ((v || s) || r) ≡ (v || (s || r))
  reaches_or v s r = ground arith

  frontier_or :
      (v s r k : Bool) → ((k || (s && not v)) || (r && not (v || s))) ≡ (k || ((s || r) && not v))
  frontier_or v s r k = ground arith

  visit_all-elem :
      (look : ℤ → Run (List ℤ))
      → ((n : ℤ) → look n ≡ ok (edges n))
      → (ns visited frontier : List ℤ)
      → (s : List ℤ × List ℤ) × (visit_all look ns visited frontier ≡ ok s)
        × ((x : ℤ)
            → (elem x s.0 ≡ (elem x visited || leads_to x ns))
              × (elem x s.1 ≡ (elem x frontier || (leads_to x ns && not (elem x visited)))))
  unfolding visit_all
  visit_all-elem look f [] visited frontier = ((visited, frontier), refl, λ x. ground arith)
  visit_all-elem look f (n ∷ ns) visited frontier =
      let s = visit (edges n) visited frontier in
      let rest = visit_all-elem look f ns s.0 s.1 in
      (
        rest.0,
        rw (f n) rest.1,
        λ x. ground (
          arith,
          (rest.2 x).0,
          (rest.2 x).1,
          (visit-elem x (edges n) visited frontier).0,
          (visit-elem x (edges n) visited frontier).1,
        ),
      )

  abbrev Near : (start : ℤ) → ℕ → ℤ → Type 0
  Near start d u = (k : ℕ) × (k ≤ d) × Walk link start k u

  record Searched (start : ℤ) (d : ℕ) (visited last : List ℤ) : Type 0 where
    near : (x : ℤ) → elem x visited ≡ true → Near start d x
    visits : (x : ℤ) → Near start d x → elem x visited ≡ true
    at : (x : ℤ) → (elem x last ≡ true) ↔ AtDistance link start d x

  leads_to-some :
      (x : ℤ) (ns : List ℤ)
      → leads_to x ns ≡ true
      → (n : ℤ) × (elem n ns ≡ true) × (elem x (edges n) ≡ true)
  leads_to-some x [] h = cc
  leads_to-some x (n ∷ ns) h = elim (Bool-cases (elem x (edges n))) [
    | inl linked ↦ (n, ground (arith, elem-cons n n ns, int_beq_iff n n), linked)
    | inr other ↦
        (let rest = leads_to-some x ns (ground arith) in
          (rest.0, ground (arith, elem-cons rest.0 n ns), rest.2))
  ]

  some-leads_to :
      (x n : ℤ) (ns : List ℤ) → elem n ns ≡ true → elem x (edges n) ≡ true → leads_to x ns ≡ true
  some-leads_to x n [] i h = (let out = elem-nil n in cc)
  some-leads_to x n (m ∷ ns) i h = elim (Bool-cases (int_beq m n)) [
    | inl same ↦
        (let there : elem x (edges m) ≡ true =
            ap (λ z. elem x (edges z)) ((int_beq_iff m n).0 same) ∙ h in
          rw there refl)
    | inr other ↦
        (let rest = some-leads_to x n ns (ground (arith, elem-cons n m ns)) h in ground arith)
  ]

  -- The next one on a shortest walk.
  next_at :
      (start : ℤ) (d : ℕ) (visited last : List ℤ) (x : ℤ)
      → Searched start d visited last
      → elem x visited ≡ false
      → Walk link start (suc d) x
      → leads_to x last ≡ true
  next_at start d visited last x z out (on {w = w} walk edge) =
      some-leads_to x w last
        ((z.at w).1 (
          walk,
          λ k l short.
              (let back = z.visits x (suc k, omega arith, on short edge) in
                true-false (sym back ∙ out)),
        ))
        edge

  farther :
      (start : ℤ) (d : ℕ) (visited last : List ℤ) (x : ℤ)
      → Searched start d visited last
      → leads_to x last ≡ true
      → Walk link start (suc d) x
  farther start d visited last x z h =
      (let found = leads_to-some x last h in on ((z.at found.0).0 found.1).0 found.2)

  next-Near :
      (start : ℤ) (d : ℕ) (visited last : List ℤ) (x : ℤ)
      → Searched start d visited last
      → (elem x visited || leads_to x last) ≡ true
      → Near start (suc d) x
  next-Near start d visited last x z h = elim (Bool-cases (elem x visited)) [
    | inl old ↦ (let close = z.near x old in (close.0, omega (arith, close.1), close.2))
    | inr new ↦ (suc d, omega arith, farther start d visited last x z (ground arith))
  ]

  next_visits :
      (start : ℤ) (d : ℕ) (visited last : List ℤ) (x : ℤ)
      → Searched start d visited last
      → Near start (suc d) x
      → (elem x visited || leads_to x last) ≡ true
  next_visits start d visited last x z (k, l, walk) = elim (Bool-cases (elem x visited)) [
    | inl old ↦ rw old refl
    | inr new ↦ elim (Bool-cases (leb k d)) [
      | inl low ↦
          (let back = z.visits x (k, ground arith, walk) in absurd (true-false (sym back ∙ new)))
      | inr high ↦
          let size : k ≡ suc d = ground arith in
          let ahead =
            next_at start d visited last x z new (subst (λ n. Walk link start n x) size walk) in
          ground arith
    ]
  ]

  next_to :
      (start : ℤ) (d : ℕ) (visited last : List ℤ) (x : ℤ)
      → Searched start d visited last
      → (leads_to x last && not (elem x visited)) ≡ true
      → AtDistance link start (suc d) x
  next_to start d visited last x z h =
      let new : elem x visited ≡ false = ground arith in
      (
        farther start d visited last x z (ground arith),
        λ k l walk. true-false (sym (z.visits x (k, omega arith, walk)) ∙ new),
      )

  next_from :
      (start : ℤ) (d : ℕ) (visited last : List ℤ) (x : ℤ)
      → Searched start d visited last
      → AtDistance link start (suc d) x
      → (leads_to x last && not (elem x visited)) ≡ true
  next_from start d visited last x z (walk, none_nearer) = elim (Bool-cases (elem x visited)) [
    | inl old ↦
        (let close = z.near x old in absurd (none_nearer close.0 (omega (arith, close.1)) close.2))
    | inr new ↦ (let ahead = next_at start d visited last x z new walk in ground arith)
  ]

  next-Searched :
      (start : ℤ) (d : ℕ) (visited last visited' last' : List ℤ)
      → Searched start d visited last
      → ((x : ℤ)
          → (elem x visited' ≡ (elem x visited || leads_to x last))
            × (elem x last' ≡ (elem x [] || (leads_to x last && not (elem x visited)))))
      → Searched start (suc d) visited' last'
  next-Searched start d visited last visited' last' z f = record {
    near = λ x i. next-Near start d visited last x z (sym (f x).0 ∙ i);
    visits = λ x i. (f x).0 ∙ next_visits start d visited last x z i;
    at = λ x. (
      (λ i. next_to start d visited last x z (ground (arith, (f x).1, elem-nil x))),
      λ i.
          (f x).1
          ∙ (let there = next_from start d visited last x z i in ground (arith, elem-nil x)),
    );
  }

  only : (start x : ℤ) → elem x (start ∷ []) ≡ true → start ≡ x
  only start x i = (int_beq_iff start x).0 (ground (arith, elem-cons x start [], elem-nil x))

  alone : (start x : ℤ) → start ≡ x → elem x (start ∷ []) ≡ true
  alone start x e = (let same = (int_beq_iff start x).1 e in ground (arith, elem-cons x start []))

  first-Searched : (start : ℤ) → Searched start 0 (start ∷ []) (start ∷ [])
  first-Searched start = record {
    near = λ x i.
        (let one = only start x i in (0, omega arith, subst (λ z. Walk link start 0 z) one here));
    visits = λ x i. alone start x (zero_walk link start i.0 x (omega (arith, i.1)) i.2);
    at = λ x. (
      (λ i. (
        subst (λ z. Walk link start 0 z) (only start x i) here,
        λ k l walk. absurd (omega arith),
      )),
      λ i. alone start x (zero_walk link start 0 x refl i.0),
    );
  }

  bfs_loop-Frontiers :
      (look : ℤ → Run (List ℤ))
      → ((n : ℤ) → look n ≡ ok (edges n))
      → (start : ℤ) (count d : ℕ) (visited last : List ℤ) → Searched start d visited last
      → (ls : List (List ℤ)) × (bfs_loop look count visited last ≡ ok ls)
        × (length ls ≡ count)
        × Frontiers link start (suc d) ls
  unfolding bfs_loop
  bfs_loop-Frontiers look f start zero d visited last z = ([], refl, refl, tt)
  bfs_loop-Frontiers look f start (suc count) d visited last z =
      let s = visit_all-elem look f last visited [] in
      let z' = next-Searched start d visited last s.0.0 s.0.1 z s.2 in
      let rest = bfs_loop-Frontiers look f start count (suc d) s.0.0 s.0.1 z' in
      (s.0.1 ∷ rest.0, rw (s.1, rest.1) refl, ap suc rest.2, (z'.at, rest.3))

  bfs_from-Frontiers :
      (look : ℤ → Run (List ℤ))
      → ((n : ℤ) → look n ≡ ok (edges n))
      → (start : ℤ) (count : ℕ)
      → (ls : List (List ℤ)) × ((bfs_loop look count (start ∷ []) (start ∷ []) >>= λ rest.
            ok ((start ∷ []) ∷ rest))
          ≡ ok ls)
        × (length ls ≡ suc count)
        × Frontiers link start 0 ls
  bfs_from-Frontiers look f start count =
      let z = first-Searched start in
      let rest = bfs_loop-Frontiers look f start count 0 (start ∷ []) (start ∷ []) z in
      ((start ∷ []) ∷ rest.0, rw rest.1 refl, ap suc rest.2, (z.at, rest.3))

-- After any history of changes, `bfs` raises nothing and answers with `max_dist + 1` sets: the one at place
-- `d` holds exactly the nodes that a walk of `d` edges leads to from the start, and none of fewer, over the
-- edges whose last change among the first `snapshot` changes added them.
pub bfs-after :
    (n : ℕ) (h : List Change) (start snapshot : ℤ) (max_dist : ℕ)
    → (ls : List (List ℤ)) × (bfs (after n h) start snapshot max_dist ≡ ok ls)
      × (length ls ≡ suc max_dist)
      × Frontiers (λ w u. present_from n w u snapshot h) start 0 ls
unfolding bfs
bfs-after n h start snapshot max_dist =
    let edges : ℤ → List ℤ = λ w. (list_edges-after n h w snapshot).0 in
    let found =
      bfs_from-Frontiers edges (λ w. list_edges w snapshot (after n h))
        (λ w. (list_edges-after n h w snapshot).1) start max_dist in
    let same : ◌≡◌ {A = ℤ → ℤ → Bool} (λ w u. elem u (edges w))
        (λ w u. present_from n w u snapshot h) =
      fun_ext λ w. fun_ext λ u. (list_edges-after n h w snapshot).3 u in
    (found.0, found.1, found.2, subst (λ l. Frontiers l start 0 found.0) same found.3)
