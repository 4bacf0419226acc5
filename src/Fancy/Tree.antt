-- ===== src/Fancy/Tree.antt =====
-- `Segment` and the functions on segment trees of python/segment-tree-2.py. A segment's two children
-- are both absent or both there. A function that changes a segment in place returns the new one.
use code_recipes.Common.{
  ℕ, zero, suc, ◌+◌, ◌-◌, ◌*◌, ◌/◌, ◌%◌, List, [], ◌∷◌, ltb, ◌==◌, if◌then◌else◌,
}
use code_recipes.Common.Result.{Result, ok, err, ◌>>=◌, ◌>>◌, guard}

abbrev pub modulus : ℕ
modulus = 1_000_000_007

pub data Error : Type 0 where
  attribute_error assertion_error out_of_fuel : Error

abbrev pub Run {ℓ} : Type ℓ → Type ℓ
Run A = Result Error A

-- The fields of a segment [l, r) but its children. It stands for the function a * x + b, and its
-- own value is c.
pub record Info : Type 0 where
  pub l : ℕ
  pub r : ℕ
  pub a : ℕ
  pub b : ℕ
  pub c : ℕ

pub data Segment : Type 0 where
  leaf : Info → Segment
  node : Info → Segment → Segment → Segment

abbrev pub info : Segment → Info
info (leaf i) = i
info (node i lc rc) = i

abbrev pub fresh : ℕ → ℕ → Info
fresh l r = record { l = l; r = r; a = 1; b = 0; c = 0 }

-- `constructSegmentTree`, with fuel
unfoldable pub construct : ℕ → ℕ → ℕ → Run Segment
construct zero l r = err out_of_fuel
construct (suc fuel) l r =
    let mid = (l + r) / 2 in
    let split : Run Segment = do
      guard (ltb mid r) assertion_error
      guard (ltb l mid) assertion_error
      lc ← construct fuel l mid
      rc ← construct fuel mid r
      ok (node (fresh l r) lc rc)
    in if l == mid then ok (leaf (fresh l r)) else split

-- `constructSegmentTree(l, r)`
unfoldable pub construct_segment_tree : ℕ → ℕ → Run Segment
unfolding construct
construct_segment_tree l r = construct (r - l + 1) l r

abbrev pub put : ℕ → Info → Info
put value i = record i { c = value; a = 1 }

-- `append(seg, pos, value)`
unfoldable pub append : ℕ → ℕ → Segment → Run Segment
append pos value (leaf i) =
    if ltb (i.l + 1) i.r then err attribute_error else ok (leaf (put value i))
append pos value (node i lc rc) =
    let left : Run Segment = append pos value lc >>= λ lc'. ok (node i lc' rc) in
    let right : Run Segment = append pos value rc >>= λ rc'. ok (node i lc rc') in
    if ltb (i.l + 1) i.r
    then (if ltb pos (info lc).r then left else right)
    else ok (node (put value i) lc rc)

-- The callback of `opForAll`, on the segment that is passed to it.
abbrev pub at_root : (Info → ℕ → Info) → ℕ → Segment → Segment
at_root callback value (leaf i) = leaf (callback i value)
at_root callback value (node i lc rc) = node (callback i value) lc rc

-- `opForAll(seg, r, value, full_coverage_callback)`
unfoldable pub op_for_all : (Info → ℕ → Info) → ℕ → ℕ → Segment → Run Segment
op_for_all callback r value (leaf i) =
    if ltb r i.r
    then guard (ltb i.l r) assertion_error >> err attribute_error
    else ok (leaf (callback i value))
op_for_all callback r value (node i lc rc) =
    let right : Run Segment =
      op_for_all callback r value rc >>= λ rc'. ok (node i (at_root callback value lc) rc') in
    let left : Run Segment = op_for_all callback r value lc >>= λ lc'. ok (node i lc' rc) in
    let inside = if ltb (info lc).r r then right else left in
    if ltb r i.r
    then guard (ltb i.l r) assertion_error >> inside
    else ok (node (callback i value) lc rc)

-- The first loop of `query`: the segment that is reached, and the stack of those above it.
unfoldable pub query_down : ℕ → Segment → List Info → Run (Info × List Info)
query_down pos (leaf i) stack = if ltb (i.l + 1) i.r then err attribute_error else ok (i, stack)
query_down pos (node i lc rc) stack =
    let left = query_down pos lc (i ∷ stack) in
    let right = query_down pos rc (i ∷ stack) in
    if ltb (i.l + 1) i.r then (if ltb pos (info lc).r then left else right) else ok (i, stack)

-- The second loop of `query`.
unfoldable pub query_up : ℕ → List Info → ℕ
query_up res [] = res
query_up res (i ∷ stack) = query_up ((res * i.a + i.b) % modulus) stack

unfoldable pub query : ℕ → Segment → Run ℕ
unfolding query_down query_up
query pos seg = do
  (i, stack) ← query_down pos seg []
  ok (query_up ((i.a * i.c + i.b) % modulus) stack)

-- `growTree(root)`
unfoldable pub grow_tree : Segment → Run Segment
unfolding construct_segment_tree
grow_tree root = do
  guard ((info root).l == 0) assertion_error
  rc ← construct_segment_tree (info root).r ((info root).r * 2)
  ok (node (fresh (info root).l ((info root).r * 2)) root rc)
