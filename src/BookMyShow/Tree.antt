-- ===== src/BookMyShow/Tree.antt =====
-- `Segment` of python/segment-tree.py and the functions on trees of it. A function that changes the
-- tree returns the tree changed. No seat number that `gather` computes is negative.
use Prim.Native.Nat.{max}
use code_recipes.Common.{
  ℕ, zero, suc, ◌+◌, ◌-◌, ◌*◌, ◌/◌, ltb, leb, ◌==◌, ◌&&◌, ◌||◌, if◌then◌else◌, Bool, true, false,
  Option, none, some, List, [], ◌∷◌,
}
use code_recipes.Common.Result.{Result, ok, err, ◌>>=◌, ◌>>◌, guard}

pub data Error : Type 0 where
  assertion_error out_of_fuel : Error

abbrev pub Run {ℓ} : Type ℓ → Type ℓ
Run A = Result Error A

pub record Info : Type 0 where
  pub l : ℕ
  pub r : ℕ
  pub max_row_seats : ℕ
  pub sum_row_seats : ℕ

pub data Segment : Type 0 where
  leaf : Info → Segment
  node : Info → Segment → Segment → Segment

abbrev pub info : Segment → Info
info (leaf i) = i
info (node i left right) = i

-- `Segment(l=l, r=r, max_row_seats=m, sum_row_seats=m * (r - l))`
abbrev pub fresh : ℕ → ℕ → ℕ → Info
fresh m l r = record { l = l; r = r; max_row_seats = m; sum_row_seats = m * (r - l) }

-- `constructSegmentTree(seg, m)`, with fuel for its depth
unfoldable pub construct : ℕ → ℕ → Info → Run Segment
construct zero m i = err out_of_fuel
construct (suc fuel) m i =
    let mid = (i.l + i.r) / 2 in
    let children : Run Segment = do
      guard (ltb mid i.r && ltb i.l mid) assertion_error
      left ← construct fuel m (fresh m i.l mid)
      right ← construct fuel m (fresh m mid i.r)
      ok (node i left right)
    in if i.l == mid then ok (leaf i) else children

-- The segment after `updateSeg(seg)`.
abbrev pub update_seg : Info → Segment → Segment → Segment
update_seg i left right =
    node
      (record i {
        max_row_seats = max (info left).max_row_seats (info right).max_row_seats;
        sum_row_seats = (info left).sum_row_seats + (info right).sum_row_seats;
      })
      left right

-- `seg.max_row_seats -= k; seg.sum_row_seats -= k`
abbrev pub take_seats : ℕ → Info → Info
take_seats k i = record i {
  max_row_seats = i.max_row_seats - k;
  sum_row_seats = i.sum_row_seats - k;
}

-- What `gather` answers, and the tree it leaves.
abbrev pub Gathered : Type 0
Gathered = Option (List ℕ) × Segment

-- `gather` on the right child, when the left one had no row.
abbrev pub gathered_right : Info → Segment → Gathered → Gathered
gathered_right i left (none, right) = (none, node i left right)
gathered_right i left (some seats, right) = (some seats, update_seg i left right)

-- `gather` once the left child has answered; `in_right` is the call on the right child.
abbrev pub gathered_left : ℕ → Info → Segment → Run Gathered → Gathered → Run Gathered
gathered_left max_row i right in_right (some seats, left) = ok (some seats, update_seg i left right)
gathered_left max_row i right in_right (none, left) =
    if leb (info right).l max_row
    then (in_right >>= λ g. ok (gathered_right i left g))
    else ok (none, node i left right)

unfoldable pub gather : ℕ → ℕ → ℕ → Segment → Run Gathered
gather k max_row m (leaf i) =
    guard (leb i.l max_row) assertion_error
    >> (if ltb i.max_row_seats k
        then ok (none, leaf i)
        else ok (some (i.l ∷ (m - (take_seats k i).sum_row_seats - k) ∷ []), leaf (take_seats k i)))
gather k max_row m (node i left right) =
    let in_right = gather k max_row m right in
    let inside = gather k max_row m left >>= gathered_left max_row i right in_right in
    guard (leb i.l max_row) assertion_error
    >> (if ltb i.max_row_seats k then ok (none, node i left right) else inside)

unfoldable pub can_scatter : ℕ → ℕ → Segment → Bool
can_scatter k max_row (leaf i) = if ltb i.sum_row_seats k then false else true
can_scatter k max_row (node i left right) =
    let in_left = can_scatter k max_row left in
    let in_right = can_scatter (k - (info left).sum_row_seats) max_row right in
    if ltb i.sum_row_seats k
    then false
    else if ltb max_row (info left).r
    then in_left
    else if leb k (info left).sum_row_seats
    then true
    else in_right

unfoldable pub scatter : ℕ → ℕ → Segment → Run Segment
scatter k max_row (leaf i) = do
  guard (leb k i.sum_row_seats) assertion_error
  guard (leb i.l max_row) assertion_error
  ok (leaf (take_seats k i))
scatter k max_row (node i left right) =
    let l_seats = (info left).sum_row_seats in
    let all_of_it : Run Segment = do
      guard (leb (i.r - 1) max_row) assertion_error
      ok (node (record i { max_row_seats = 0; sum_row_seats = 0 }) left right)
    in let in_left = scatter k max_row left >>= λ left'. ok (update_seg i left' right) in
      let whole_left = scatter l_seats max_row left in
      let in_right = scatter (k - l_seats) max_row right in
      let in_both = whole_left >>= λ left'. in_right >>= λ right'. ok (update_seg i left' right') in
      if k == i.sum_row_seats
      then all_of_it
      else if ltb max_row (info left).r || leb k l_seats
      then in_left
      else in_both
