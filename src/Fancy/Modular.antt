-- ===== src/Fancy/Modular.antt =====
-- Sums and products modulo the prime.
use native.Mathlib.Nat.{add-mul-mod_self_left, mod-add-div}
use code_recipes.Common.{ℕ, ◌+◌, ◌*◌, ◌/◌, ◌%◌, ◌≡◌, sym, ap, arith}
use code_recipes.Fancy.Tree.{modulus}

-- Reducing a factor first changes nothing.
pub mod-mul-mod : (x y : ℕ) → (x % modulus * y) % modulus ≡ (x * y) % modulus
mod-mul-mod x y =
    let whole : x * y ≡ x % modulus * y + modulus * (x / modulus * y) =
      omega (arith, ap (λ (t : ℕ). t * y) (mod-add-div x modulus)) in
    sym (rw whole (add-mul-mod_self_left (x % modulus * y) modulus (x / modulus * y)))

-- A lazy addition: adding to `b` adds to the value.
pub add_lazy :
    (v a b inc : ℕ)
    → (v * a + (b + inc) % modulus) % modulus ≡ ((v * a + b) % modulus + inc) % modulus
add_lazy v a b inc = omega arith

-- A lazy product: multiplying `a` and `b` multiplies the value.
pub mul_lazy :
    (v a b m : ℕ)
    → (v * (a * m % modulus) + b * m % modulus) % modulus ≡ ((v * a + b) % modulus * m) % modulus
mul_lazy v a b m = omega (arith, mod-mul-mod (a * m) v, mod-mul-mod (v * a + b) m)
