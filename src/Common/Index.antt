-- ===== src/Common/Index.antt =====
-- Indexing a Python list by an int: a negative index counts from the end.
use code_recipes.Common.{ℕ, ◌-◌, Option, none, some, ltb, if◌then◌else◌}
use code_recipes.Common.Int.{ℤ, pos, negsuc}

-- The place that index `i` names in a list of length `n`; `none` for an `IndexError`.
abbrev pub place : ℕ → ℤ → Option ℕ
place n (pos i) = if ltb i n then some i else none
place n (negsuc i) = if ltb i n then some (n - 1 - i) else none
