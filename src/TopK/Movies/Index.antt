-- ===== src/TopK/Movies/Index.antt =====
-- `HctIndex` and `Movie`. The movies of a system never change after `__init__`, so
-- they are an argument here, and the assertion of `HctIndex` is a field of it.
use code_recipes.Common.{
  ◌↔◌, ℕ, zero, suc, ◌≡◌, refl, ap, subst, ==_iff, Bool, true, false, ltb, ◌==◌, ◌&&◌, ◌||◌, List,
  [], ◌∷◌, arith, length, Option, none, some, ◌⊎◌, inl, inr,
}
use code_recipes.Common.Eq.{Eq, int_eq, int_beq}
use code_recipes.Common.Int.{ℤ, ltb_ℤ}

pub record Movie : Type 0 where
  pub price : ℤ
  pub shop : ℤ
  pub movie : ℤ

-- The comparison of the tuples of price, shop and movie.
abbrev pub movie_lt : Movie → Movie → Bool
movie_lt a b =
    ltb_ℤ a.price b.price
    || (int_beq a.price b.price
        && (ltb_ℤ a.shop b.shop || (int_beq a.shop b.shop && ltb_ℤ a.movie b.movie)))

pub below_nil : (i : ℕ) → ltb i 0 ≡ true → ⊥
below_nil i p = ground arith

pub below_tail :
    {A : Type 0} (i : ℕ) (xs : List A)
    → ltb (suc i) (suc (length xs)) ≡ true
    → ltb i (length xs) ≡ true
below_tail i xs p = ground arith

-- `elements[i]`, for an index that was checked
abbrev pub entry_at : (elements : List Movie) (i : ℕ) → ltb i (length elements) ≡ true → Movie
entry_at [] i p = absurd (below_nil i p)
entry_at (m ∷ ms) zero p = m
entry_at (m ∷ ms) (suc i) p = entry_at ms i (below_tail i ms p)

pub record HctIndex (elements : List Movie) : Type 0 where
  pub idx : ℕ
  pub in_range : ltb idx (length elements) ≡ true

abbrev pub decided : (b : Bool) → (b ≡ true) ⊎ (b ≡ false)
decided true = inl refl
decided false = inr refl

module _ (movies : List Movie) where
  abbrev pub checked :
      (i : ℕ)
      → (ltb i (length movies) ≡ true) ⊎ (ltb i (length movies) ≡ false)
      → Option (HctIndex movies)
  checked i (inl p) = some (record { idx = i; in_range = p })
  checked i (inr p) = none

  -- `HctIndex(idx)`: an index that is too large raises.
  unfoldable pub hct_index : ℕ → Option (HctIndex movies)
  hct_index i = checked i (decided (ltb i (length movies)))

  abbrev pub element : HctIndex movies → Movie
  element a = entry_at movies a.idx a.in_range

  abbrev pub index_lt : HctIndex movies → HctIndex movies → Bool
  index_lt a b = movie_lt (element a) (element b)

  abbrev pub index_beq : HctIndex movies → HctIndex movies → Bool
  index_beq a b = a.idx == b.idx

  -- `__hash__`
  abbrev hash : HctIndex movies → ℕ
  hash a = a.idx

  abbrev get_idx : HctIndex movies → ℕ
  get_idx a = a.idx

abbrev index_at : (movies : List Movie) (i : ℕ) → ltb i (length movies) ≡ true → HctIndex movies
index_at movies i p = record { idx = i; in_range = p }

same_range : (n i : ℕ) → IsProp (ltb i n ≡ true)
same_range n i = hlevel

index_at_lem :
    (movies : List Movie) (i j : ℕ)
    → i ≡ j
    → (p : ltb i (length movies) ≡ true) (q : ltb j (length movies) ≡ true)
    → index_at movies i p ≡ index_at movies j q
index_at_lem movies i j h p =
    subst (λ k. (q : ltb k (length movies) ≡ true) → index_at movies i p ≡ index_at movies k q) h
      (λ q. ap (index_at movies i) (same_range (length movies) i p q))

pub same_index : (movies : List Movie) (a b : HctIndex movies) → a.idx ≡ b.idx → a ≡ b
same_index movies a b h = index_at_lem movies a.idx b.idx h a.in_range b.in_range

pub index_beq_iff :
    (movies : List Movie) (a b : HctIndex movies) → (index_beq movies a b ≡ true) ↔ (a ≡ b)
index_beq_iff movies a b = (
  (λ h. same_index movies a b ((==_iff a.idx b.idx).0 h)),
  λ h. (==_iff a.idx b.idx).1 (ap (λ z. z.idx) h),
)

instance abbrev pub index_eq : {movies : List Movie} → Eq (HctIndex movies)
index_eq {movies = movies} = record { beq = index_beq movies; beq_iff = index_beq_iff movies }

-- Equal indices have the same hash, as a set wants of its elements.
hash-index_beq :
    (movies : List Movie) (a b : HctIndex movies)
    → index_beq movies a b ≡ true
    → hash movies a ≡ hash movies b
hash-index_beq movies a b h = (==_iff a.idx b.idx).0 h
