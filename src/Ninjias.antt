-- ===== src/Ninjias.antt =====
-- `ninjias` of python/ninjias.py: who is left of a circle in which each one standing kills the next.
pub mod Circle
pub mod Links
pub mod Ring
pub mod Build
pub mod Bruteforce
mod Tests
use code_recipes.Common.{
  ℕ, zero, suc, ◌+◌, ◌-◌, ◌*◌, ◌/◌, ◌%◌, ◌==◌, leb, if◌then◌else◌, Bool, true, false, Option, none,
  some,
}
use code_recipes.Common.Maybe.{◌>>=◌}

-- `ninjias(n)`, with fuel
unfoldable pub ninjias : ℕ → ℕ → Option ℕ
ninjias zero n = none
ninjias (suc fuel) n =
    let half = ninjias fuel (n / 2) >>= λ r. some (2 * r) in
    let more_than_half =
      ninjias fuel ((n + 1) / 2) >>= λ res. some (if res == 0 then n - 1 else (res - 1) * 2) in
    if leb n 2 then some 0 else if n % 2 == 0 then half else more_than_half
