-- ===== src/VersionedGraph/Graph/History/Versions.antt =====
-- How one change acts on the versions of one edge, and what holds of them after any history.
use code_recipes.Common.{
  ℕ, suc, ◌+◌, ◌≤◌, ◌<◌, ◌≡◌, refl, ◌∙◌, Bool, true, false, ◌&&◌, Option, none, some, List, [], ◌∷◌,
  ◌++◌, arith, ◌==◌, if◌then◌else◌, length, get_elem?, set, get_elem?-set, length-set,
  length-replicate, last?, Option-cases, Bool-cases, inl, inr,
}
use code_recipes.Common.Int.{ℤ, pos, negsuc, leb_ℤ}
use code_recipes.Common.Index.{place}
use code_recipes.Common.Eq.{int_eq, int_beq, int_beq_iff}
use code_recipes.Common.Dict.{lookup, lookup-insert}
use code_recipes.Common.Bisect.{get_elem?-some, last_kept, last_kept-append}
use code_recipes.VersionedGraph.Search.{Version, newer}
use code_recipes.VersionedGraph.Graph.{Graph, Row, or_empty, ends_with, row_append, change}
use code_recipes.VersionedGraph.Graph.History.{
  Change, after, hits, last_change, versions_of, versions_in,
}

-- The versions of an edge that is changed.
abbrev pub grown : List Version → Version → List Version
grown versions x = if ends_with versions x.dm then versions else versions ++ x ∷ []

versions-row_append :
    (end e : ℤ) (x : Version) (row : Row)
    → or_empty (lookup e (row_append end x row))
      ≡ (if int_beq end e then grown (or_empty (lookup e row)) x else or_empty (lookup e row))
unfolding row_append
versions-row_append end e x row =
    ground (arith, int_beq_iff end e, lookup-insert end e (or_empty (lookup end row) ++ x ∷ []) row)

pub place-lt : (n : ℕ) (k : ℤ) {i : ℕ} → place n k ≡ some i → i < n
place-lt n (pos k) h = ground arith
place-lt n (negsuc k) h = ground arith

change-length :
    (c : Change) (g : Graph) → length (change c.start c.end c.dm g).1.graph ≡ length g.graph
unfolding change
change-length c g = elim (Option-cases (place (length g.graph) c.start)) [
  | inl e ↦ rw (e, change)
  | inr (i, e) ↦
      let (row, at) = get_elem?-some g.graph i (place-lt (length g.graph) c.start e) in
      rw (e, change) (rw (at, change) (length-set g.graph i _))
]

versions_in-set :
    (rows : List Row) (i j : ℕ) (end e : ℤ) (x : Version) (row : Row)
    → j < length rows
    → get_elem? rows j ≡ some row
    → versions_in (get_elem? (set rows j (row_append end x row)) i) e ≡ (
        if j == i && int_beq end e
        then grown (versions_in (get_elem? rows i) e) x
        else versions_in (get_elem? rows i) e)
versions_in-set rows i j end e x row lt at =
    ground (arith, get_elem?-set rows j i (row_append end x row), versions-row_append end e x row)

-- A change that hits the edge adds to its versions, and any other leaves them.
pub versions_of-change :
    (c : Change) (g : Graph) (i : ℕ) (end : ℤ)
    → versions_of (change c.start c.end c.dm g).1 i end ≡ (
        if hits (length g.graph) i end c
        then grown (versions_of g i end) (record { v = g.version + 1; dm = c.dm })
        else versions_of g i end)
unfolding change
versions_of-change c g i end = elim (Option-cases (place (length g.graph) c.start)) [
  | inl e ↦ rw (e, change, hits)
  | inr (j, e) ↦
      let lt = place-lt (length g.graph) c.start e in
      let (row, at) = get_elem?-some g.graph j lt in
      rw (e, change, hits)
        (rw (at, change)
          (versions_in-set g.graph i j c.end end (record { v = g.version + 1; dm = c.dm }) row lt
            at))
]

pub length-after : (n : ℕ) (h : List Change) → length (after n h).graph ≡ n
unfolding after
length-after n [] = length-replicate n []
length-after n (c ∷ older) = change-length c (after n older) ∙ length-after n older

pub version-after : (n : ℕ) (h : List Change) → (after n h).version ≡ length h
unfolding after
version-after n [] = refl
version-after n (c ∷ older) = ground (arith, version-after n older)

-- The versions of an edge grow in number, and none is newer than the graph.
abbrev pub AllBelow : ℕ → List Version → Type 0
AllBelow k [] = Unit
AllBelow k (x ∷ vs) = (x.v ≤ k) × AllBelow k vs

abbrev pub AllAbove : ℕ → List Version → Type 0
AllAbove k [] = Unit
AllAbove k (x ∷ vs) = (k < x.v) × AllAbove k vs

abbrev pub IsAscending : List Version → Type 0
IsAscending [] = Unit
IsAscending (x ∷ vs) = AllAbove x.v vs × IsAscending vs

AllBelow-append :
    (k : ℕ) (vs : List Version) (x : Version)
    → AllBelow k vs
    → x.v ≡ suc k
    → AllBelow (suc k) (vs ++ x ∷ [])
AllBelow-append k [] x h e = ground arith
AllBelow-append k (y ∷ vs) x h e = ground (arith, AllBelow-append k vs x h.1 e)

AllAbove-append :
    (k : ℕ) (vs : List Version) (x : Version) → AllAbove k vs → k < x.v → AllAbove k (vs ++ x ∷ [])
AllAbove-append k [] x h p = ground arith
AllAbove-append k (y ∷ vs) x h p = ground (arith, AllAbove-append k vs x h.1 p)

AllBelow-suc : (k : ℕ) (vs : List Version) → AllBelow k vs → AllBelow (suc k) vs
AllBelow-suc k [] h = tt
AllBelow-suc k (y ∷ vs) h = ground (arith, AllBelow-suc k vs h.1)

IsAscending-append :
    (k : ℕ) (vs : List Version) (x : Version)
    → AllBelow k vs
    → IsAscending vs
    → x.v ≡ suc k
    → IsAscending (vs ++ x ∷ [])
IsAscending-append k [] x b h e = (tt, tt)
IsAscending-append k (y ∷ vs) x b h e =
    ground (arith, IsAscending-append k vs x b.1 h.1 e, AllAbove-append y.v vs x h.0)

-- For a version no newer than any bound the last entry is the one that counts.
last_kept-last? :
    (k : ℕ) (t : ℤ) (vs : List Version)
    → AllBelow k vs
    → leb_ℤ (pos k) t ≡ true
    → last_kept (newer t) vs ≡ last? vs
last_kept-last? k t [] b h = refl
last_kept-last? k t (x ∷ []) b h = ground arith
last_kept-last? k t (x ∷ y ∷ vs) b h = ground (arith, last_kept-last? k t (y ∷ vs) b.1 h)

abbrev pub marker : Option Version → Option Bool
marker none = none
marker (some x) = some x.dm

-- The versions of an edge after a history, in one statement: their numbers grow up to that of the
-- graph, and for every version asked for the last entry that is not newer has the deletion marker
-- of the edge's last change up to that version.
pub record Records (n i : ℕ) (end : ℤ) (h : List Change) (vs : List Version) : Type 0 where
  pub below : AllBelow (length h) vs
  pub ascending : IsAscending vs
  pub answers : (t : ℤ) → marker (last_kept (newer t) vs) ≡ last_change n i end t h

module _ (n i : ℕ) (end : ℤ) (c : Change) (older : List Change) (vs : List Version) where
  abbrev pub entry : Version
  entry = record { v = length older + 1; dm = c.dm }

  pub Records-grown :
      Records n i end older vs
      → hits n i end c ≡ true
      → Records n i end (c ∷ older) (grown vs entry)
  Records-grown r hit = elim (Bool-cases (ends_with vs c.dm)) [
    | inl same ↦ rw same (record {
      below = AllBelow-suc (length older) vs r.below;
      ascending = r.ascending;
      answers = λ t. ground (arith, r.answers t, last_kept-last? (length older) t vs r.below);
    })
    | inr other ↦ rw other (record {
      below = AllBelow-append (length older) vs entry r.below (omega arith);
      ascending = IsAscending-append (length older) vs entry r.below r.ascending (omega arith);
      answers = λ t. ground (arith, r.answers t, last_kept-append (newer t) vs entry);
    })
  ]

  pub Records-missed :
      Records n i end older vs → hits n i end c ≡ false → Records n i end (c ∷ older) vs
  Records-missed r miss = record {
    below = AllBelow-suc (length older) vs r.below;
    ascending = r.ascending;
    answers = λ t. ground (arith, r.answers t);
  }
