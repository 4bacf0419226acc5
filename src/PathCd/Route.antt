-- ===== src/PathCd/Route.antt =====
-- What the loop of `resolve_links` does, against routes of replacements.
use code_recipes.Common.{
  ℕ, zero, suc, ◌<◌, ◌≡◌, refl, ◌∙◌, arith, true, false, Bool-cases, Option-cases, inl, inr, ◌⊎◌,
  none, some, List, ◌∷◌, length,
}
use code_recipes.Common.Eq.{Str, str_eq}
use code_recipes.Common.Dict.{Dict}
use code_recipes.Common.Sort.{elem}
use code_recipes.Common.Result.{ok, err}
use code_recipes.PathCd.FilePath.{FilePath, Run, runtime_error, out_of_fuel, str}
use code_recipes.PathCd.Links.{absolute, find_link, resolve_loop, resolve_loop-hop}

-- Replacements, each of the longest prefix that is a link, that lead from one path to another, with
-- the texts met before and after and their number. Each meets a path that was not met.
pub data Route (links : Dict Str FilePath)
    : List Str → List Str → List Str → List Str → ℕ → Type 0 where
  here : (visited segs : List Str) → Route links visited segs visited segs 0
  hop :
      (visited segs segs' visited' target : List Str) (n : ℕ)
      → find_link (length segs) links segs ≡ some segs'
      → elem (str (absolute segs')) visited ≡ false
      → Route links (str (absolute segs') ∷ visited) segs' visited' target n
      → Route links visited segs visited' target (suc n)

-- How the loop ends at the path `target` after `n` replacements.
abbrev pub Returns : ℕ → Dict Str FilePath → List Str → ℕ → Run Str → Type 0
Returns fuel links target n result =
    (n < fuel)
    × (find_link (length target) links target ≡ none)
    × (result ≡ ok (str (absolute target)))

abbrev pub ComesBack : ℕ → Dict Str FilePath → List Str → List Str → ℕ → Run Str → Type 0
ComesBack fuel links visited target n result =
    (n < fuel)
    × (back : List Str) × (find_link (length target) links target ≡ some back)
    × (elem (str (absolute back)) visited ≡ true)
    × (result ≡ err runtime_error)

abbrev pub GoesOn : ℕ → ℕ → Run Str → Type 0
GoesOn fuel n result = (n ≡ fuel) × (result ≡ err out_of_fuel)

abbrev pub Ends : ℕ → Dict Str FilePath → List Str → List Str → ℕ → Run Str → Type 0
Ends fuel links visited target n result =
    Returns fuel links target n result
    ⊎ (ComesBack fuel links visited target n result ⊎ GoesOn fuel n result)

Ends-suc :
    (fuel : ℕ) (links : Dict Str FilePath) (visited target : List Str) (n : ℕ)
    (result result' : Run Str)
    → result' ≡ result
    → Ends fuel links visited target n result
    → Ends (suc fuel) links visited target (suc n) result'
Ends-suc fuel links visited target n result result' e (inl (lt, stuck, r)) =
    inl (omega arith, stuck, e ∙ r)
Ends-suc fuel links visited target n result result' e (inr (inl (lt, back, found, met, r))) =
    inr (inl (omega arith, back, found, met, e ∙ r))
Ends-suc fuel links visited target n result result' e (inr (inr (m, r))) =
    inr (inr (omega arith, e ∙ r))

loop-stuck :
    (fuel : ℕ) (links : Dict Str FilePath) (visited segs : List Str)
    → find_link (length segs) links segs ≡ none
    → resolve_loop (suc fuel) links visited segs ≡ ok (str (absolute segs))
unfolding resolve_loop
loop-stuck fuel links visited segs stuck = rw (stuck, resolve_loop)

loop-back :
    (fuel : ℕ) (links : Dict Str FilePath) (visited segs back : List Str)
    → find_link (length segs) links segs ≡ some back
    → elem (str (absolute back)) visited ≡ true
    → resolve_loop (suc fuel) links visited segs ≡ err runtime_error
unfolding resolve_loop
loop-back fuel links visited segs back found met = rw (found, resolve_loop, met)

-- Within any number of rounds the loop of `resolve_links` follows a route of replacements, and either
-- returns its end, no prefix of which is a link, or raises where the next path was met before, or
-- has spent all its rounds on new paths.
resolve_loop_lem :
    (fuel : ℕ) (links : Dict Str FilePath) (visited segs : List Str)
    → (visited' : List Str) × (target : List Str) × (n : ℕ) × Route links visited segs visited'
        target n
      × Ends fuel links visited' target n (resolve_loop fuel links visited segs)
unfolding resolve_loop
resolve_loop_lem zero links visited segs =
    (visited, segs, 0, Route.here visited segs, inr (inr (refl, refl)))
resolve_loop_lem (suc fuel) links visited segs =
    elim (Option-cases (find_link (length segs) links segs)) [
      | inl stuck ↦ (
        visited,
        segs,
        0,
        Route.here visited segs,
        inl (omega arith, stuck, loop-stuck fuel links visited segs stuck),
      )
      | inr (segs', found) ↦ elim (Bool-cases (elem (str (absolute segs')) visited)) [
        | inl met ↦ (
          visited,
          segs,
          0,
          Route.here visited segs,
          inr (
              inl (
                omega arith,
                segs',
                found,
                met,
                loop-back fuel links visited segs segs' found met,
              )),
        )
        | inr new_one ↦
            let (visited', target, n, route, ends) =
              resolve_loop_lem fuel links (str (absolute segs') ∷ visited) segs' in
            (
              visited',
              target,
              suc n,
              Route.hop visited segs segs' visited' target n found new_one route,
              Ends-suc fuel links visited' target n _ _
                  (resolve_loop-hop fuel links visited segs segs' found new_one) ends,
            )
      ]
    ]
