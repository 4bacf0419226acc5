-- ===== src/PathCd/Links.antt =====
-- `resolve_links` of python/path_cd.py. The links are read from their texts first; the loop then
-- replaces the longest prefix that is a link until none is or a path comes back.
use code_recipes.Common.{
  ℕ, zero, suc, ◌≡◌, true, false, ◌&&◌, if◌then◌else◌, Option, none, some, List, [], ◌∷◌, ◌++◌,
  length, take, drop,
}
use code_recipes.Common.Eq.{Str, str_eq}
use code_recipes.Common.Dict.{Dict, lookup, insert}
use code_recipes.Common.Sort.{elem}
use code_recipes.Common.Result.{ok, err, ◌>>=◌, ◌>>◌, guard}
use code_recipes.PathCd.FilePath.{
  FilePath, Run, runtime_error, assertion_error, out_of_fuel, parse, str,
}

abbrev pub absolute : List Str → FilePath
absolute segs = record { segs = segs; is_abs = true }

unfoldable pub read_links : Dict Str Str → Dict Str FilePath → Run (Dict Str FilePath)
unfolding parse str
read_links [] links = ok links
read_links ((k, v) ∷ raw_links) links = do
  k_path ← parse k
  v_path ← parse v
  guard (k_path.is_abs && v_path.is_abs) runtime_error
  read_links raw_links (insert (str k_path) v_path links)

-- `find_matched_link` from the prefix of length `l` down. `current` is absolute.
unfoldable pub find_link : ℕ → Dict Str FilePath → List Str → Option (List Str)
unfolding str
find_link zero links segs = elim (lookup (str (absolute [])) links) [
  | none ↦ none
  | some link_to ↦ some (link_to.segs ++ segs)
]
find_link (suc l) links segs = elim (lookup (str (absolute (take (suc l) segs))) links) [
  | none ↦ find_link l links segs
  | some link_to ↦ some (link_to.segs ++ drop (suc l) segs)
]

-- The `while` loop, with fuel for its rounds
unfoldable pub resolve_loop : ℕ → Dict Str FilePath → List Str → List Str → Run Str
unfolding find_link
resolve_loop zero links visited segs = err out_of_fuel
resolve_loop (suc fuel) links visited segs = elim (find_link (length segs) links segs) [
  | none ↦ ok (str (absolute segs))
  | some segs' ↦
      let rest = resolve_loop fuel links (str (absolute segs') ∷ visited) segs' in
      if elem (str (absolute segs')) visited then err runtime_error else rest
]

unfoldable pub resolve_links : ℕ → Dict Str Str → FilePath → Run Str
unfolding read_links resolve_loop
resolve_links fuel raw_links self = do
  guard self.is_abs assertion_error
  links ← read_links raw_links []
  current ← parse (str self)
  resolve_loop fuel links (str self ∷ []) current.segs

-- A round that replaces a prefix and meets a new path goes on.
pub resolve_loop-hop :
    (fuel : ℕ) (links : Dict Str FilePath) (visited : List Str) (segs segs' : List Str)
    → find_link (length segs) links segs ≡ some segs'
    → elem (str (absolute segs')) visited ≡ false
    → resolve_loop (suc fuel) links visited segs
      ≡ resolve_loop fuel links (str (absolute segs') ∷ visited) segs'
unfolding resolve_loop
resolve_loop-hop fuel links visited segs segs' found new_one = rw (found, resolve_loop, new_one)
