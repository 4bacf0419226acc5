-- ===== src/BookMyShow/Booking.antt =====
-- The class `BookMyShow` of python/segment-tree.py.
use code_recipes.Common.{
  ℕ, ◌+◌, ◌*◌, Bool, true, false, if◌then◌else◌, Option, none, some, List, [],
}
use code_recipes.Common.Result.{ok, ◌>>=◌}
use code_recipes.BookMyShow.Tree.{Run, Info, Segment, construct, Gathered, can_scatter}
use code_recipes.BookMyShow.Tree

pub record BookMyShow : Type 0 where
  pub root : Segment
  pub m : ℕ

-- `BookMyShow(n, m)`
unfoldable pub new : ℕ → ℕ → Run BookMyShow
new n m = do
  root ← construct (n + 1) m (record { l = 0; r = n; max_row_seats = m; sum_row_seats = m * n })
  ok (record { root = root; m = m })

-- `res if res is not None else []`
abbrev pub or_empty : Option (List ℕ) → List ℕ
or_empty none = []
or_empty (some res) = res

unfoldable pub gather : ℕ → ℕ → BookMyShow → Run (List ℕ × BookMyShow)
gather k max_row b = do
  g ← Tree.gather k max_row b.m b.root
  ok (or_empty g.0, record b { root = g.1 })

unfoldable pub scatter : ℕ → ℕ → BookMyShow → Run (Bool × BookMyShow)
scatter k max_row b =
    let scattered = Tree.scatter k max_row b.root >>= λ root. ok (true, record b { root = root }) in
    if can_scatter k max_row b.root then scattered else ok (false, b)
