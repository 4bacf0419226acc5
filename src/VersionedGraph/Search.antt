-- ===== src/VersionedGraph/Search.antt =====
-- `Version` and the two searches of `VersionedDirectedGraph`, `search_for_version` and
-- `search_for_version_easy`. Version numbers count the changes, so they are naturals; the version
-- asked for is any int.
pub mod Correct
use code_recipes.Common.{
  ℕ, zero, suc, ◌+◌, ◌-◌, ◌/◌, Bool, true, false, ◌||◌, Option, none, some, List, [], ◌∷◌, map, ltb,
  if◌then◌else◌, length, get_elem?,
}
use code_recipes.Common.Int.{ℤ, pos, ltb_ℤ, leb_ℤ}
use code_recipes.Common.Bisect.{bisect_right}
use code_recipes.Common.Result.{Result, ok, err, ◌>>=◌, or_raise}

pub record Version : Type 0 where
  pub v : ℕ
  pub dm : Bool

-- `stop` is the end of an iterator, `out_of_fuel` that of the model's fuel.
pub data Error : Type 0 where
  index_error stop out_of_fuel : Error

abbrev pub Run {ℓ} : Type ℓ → Type ℓ
Run A = Result Error A

-- `x.v > target_version`
abbrev pub newer : ℤ → Version → Bool
newer target x = ltb_ℤ target (pos x.v)

search_loop : ℕ → ℤ → List Version → ℕ → ℕ → Run ℕ
search_loop zero target versions low high = err out_of_fuel
search_loop (suc fuel) target versions low high =
    let mid = (low + high) / 2 + 1 in
    let round : Run ℕ = do
      x ← or_raise (get_elem? versions mid) index_error
      let up = search_loop fuel target versions mid high
      let down = search_loop fuel target versions low (mid - 1)
      if leb_ℤ (pos x.v) target then up else down
    in if ltb low high then round else ok low

unfoldable pub search_for_version : ℤ → List Version → Run (Option ℕ)
unfolding search_loop
search_for_version target versions = do
  first ← or_raise (get_elem? versions 0) index_error
  let found = search_loop (length versions + 1) target versions 0 (length versions - 1) >>= λ low.
      ok (some low)
  if newer target first then ok none else found

unfoldable pub search_for_version_easy : ℤ → List Version → Option ℕ
search_for_version_easy target versions = elim (get_elem? versions 0) [
  | none ↦ none
  | some first ↦
      let n = bisect_right (λ x. ltb_ℤ target (pos x)) (map (λ x. x.v) versions) in
      if newer target first then none else if ltb 0 n then some (n - 1) else none
]
