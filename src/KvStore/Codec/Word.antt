-- ===== src/KvStore/Codec/Word.antt =====
-- `struct.pack` and `struct.unpack` with the format "Q".
use code_recipes.Common.{
  ℕ, zero, suc, ◌+◌, ◌*◌, ◌/◌, ◌%◌, ◌^◌, ◌<◌, ◌≡◌, Option, none, some, List, [], ◌∷◌, arith, ltb,
  ◌==◌, if◌then◌else◌, length,
}

-- The lowest `k` digits of `n` to the base 256, the lowest first.
unfoldable pub le_bytes : ℕ → ℕ → List ℕ
le_bytes zero n = []
le_bytes (suc k) n = (n % 256) ∷ le_bytes k (n / 256)

unfoldable pub le_value : List ℕ → ℕ
le_value [] = 0
le_value (b ∷ bs) = b + 256 * le_value bs

-- `struct.pack("Q", n)`, `none` for a `struct.error`
unfoldable pub pack : ℕ → Option (List ℕ)
unfolding le_bytes
pack n = if ltb n (2 ^ 64) then some (le_bytes 8 n) else none

-- `struct.unpack("Q", bs)[0]`
unfoldable pub unpack : List ℕ → Option ℕ
unfolding le_value
unpack bs = if length bs == 8 then some (le_value bs) else none

pub length-pack : (n : ℕ) {bs : List ℕ} → pack n ≡ some bs → length bs ≡ 8
unfolding pack
length-pack n h = ground arith

pub unpack-pack : (n : ℕ) {bs : List ℕ} → pack n ≡ some bs → unpack bs ≡ some n
unfolding pack unpack
unpack-pack n h = ground arith

pub pack_total : (n : ℕ) → n < 2 ^ 64 → (bs : List ℕ) × (pack n ≡ some bs)
unfolding pack
pack_total n h = (le_bytes 8 n, ground arith)
