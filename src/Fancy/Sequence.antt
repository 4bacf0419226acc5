-- ===== src/Fancy/Sequence.antt =====
-- The class `Fancy` of python/segment-tree-2.py.
use code_recipes.Common.{ℕ, ◌+◌, ◌-◌, ◌*◌, ◌%◌, ltb, leb, ◌==◌, if◌then◌else◌}
use code_recipes.Common.Int.{ℤ, pos, negsuc}
use code_recipes.Common.Result.{ok, ◌>>=◌, ◌>>◌, guard}
use code_recipes.Fancy.Tree.{
  modulus, assertion_error, Run, Info, Segment, info, construct_segment_tree, grow_tree, op_for_all,
  query,
}
use code_recipes.Fancy.Tree

pub record Fancy : Type 0 where
  pub root : Segment
  pub n : ℕ

-- `Fancy()`
unfoldable pub new : Run Fancy
new = do root ← construct_segment_tree 0 10; ok (record { root = root; n = 0 })

unfoldable pub append : ℕ → Fancy → Run Fancy
append val f = do
  let n = f.n + 1
  root ← if ltb (info f.root).r n then grow_tree f.root else ok f.root
  guard (leb n (info root).r) assertion_error
  root' ← Tree.append (n - 1) val root
  ok (record { root = root'; n = n })

-- The callbacks `add` and `mul`.
abbrev pub add : Info → ℕ → Info
add i inc = record i { b = (i.b + inc) % modulus }

abbrev pub mul : Info → ℕ → Info
mul i m = record i { a = (i.a * m) % modulus; b = (i.b * m) % modulus }

abbrev pub op_all : (Info → ℕ → Info) → ℕ → Fancy → Run Fancy
op_all callback x f =
    if f.n == 0
    then ok f
    else (do root ← op_for_all callback f.n x f.root; ok (record f { root = root }))

unfoldable pub add_all : ℕ → Fancy → Run Fancy
add_all inc f = op_all add inc f

unfoldable pub mult_all : ℕ → Fancy → Run Fancy
mult_all m f = op_all mul m f

unfoldable pub get_index : ℕ → Fancy → Run ℤ
get_index idx f = if leb f.n idx then ok (negsuc 0) else (do res ← query idx f.root; ok (pos res))
