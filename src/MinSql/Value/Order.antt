-- ===== src/MinSql/Value/Order.antt =====
-- The order of keys is a strict weak order whose ties are equal keys.
use code_recipes.Common.{ℕ, ltb, ◌≡◌, ◌↔◌, refl, arith, Bool, true, false, List, [], ◌∷◌, ap}
use code_recipes.Common.Eq.{list_beq, list_beq_iff, str_beq, str_beq_iff}
use code_recipes.MinSql.Value.{
  Value, null, num, str, same_value, same_value_iff, value_eq, below, lt_list, nat_same, lt_str,
  lt_key,
}

-- A test of equality and an order that fit each other.
pub record Ordered {A : Type 0} (same lt : A → A → Bool) : Type 0 where
  pub same_iff : (a b : A) → (same a b ≡ true) ↔ (a ≡ b)
  pub irrefl : (a : A) → lt a a ≡ false
  pub asym : (a b : A) → lt a b ≡ true → lt b a ≡ false
  pub not_less : (a b c : A) → lt b a ≡ false → lt c b ≡ false → lt c a ≡ false
  pub ties : (a b : A) → lt a b ≡ false → lt b a ≡ false → a ≡ b

module _ {A : Type 0} (same lt : A → A → Bool) (o : Ordered same lt) where
  lt_list_irrefl : (xs : List A) → lt_list same lt xs xs ≡ false
  lt_list_irrefl [] = refl
  lt_list_irrefl (x ∷ xs) = ground (arith, o.irrefl x, lt_list_irrefl xs)

  lt_list-asym : (xs ys : List A) → lt_list same lt xs ys ≡ true → lt_list same lt ys xs ≡ false
  lt_list-asym [] [] h = cc
  lt_list-asym [] (y ∷ ys) h = refl
  lt_list-asym (x ∷ xs) [] h = cc
  lt_list-asym (x ∷ xs) (y ∷ ys) h =
      ground (arith, o.same_iff x y, o.same_iff y x, o.asym x y, lt_list-asym xs ys)

  lt_list-ties :
      (xs ys : List A) → lt_list same lt xs ys ≡ false → lt_list same lt ys xs ≡ false → xs ≡ ys
  lt_list-ties [] [] h g = refl
  lt_list-ties [] (y ∷ ys) h g = cc
  lt_list-ties (x ∷ xs) [] h g = cc
  lt_list-ties (x ∷ xs) (y ∷ ys) h g =
      ground (arith, o.same_iff x y, o.same_iff y x, o.ties x y, lt_list-ties xs ys)

  lt_list-not_less :
      (xs ys zs : List A)
      → lt_list same lt ys xs ≡ false
      → lt_list same lt zs ys ≡ false
      → lt_list same lt zs xs ≡ false
  lt_list-not_less [] ys [] h g = refl
  lt_list-not_less [] [] (z ∷ zs) h g = refl
  lt_list-not_less [] (y ∷ ys) (z ∷ zs) h g = refl
  lt_list-not_less (x ∷ xs) [] [] h g = cc
  lt_list-not_less (x ∷ xs) (y ∷ ys) [] h g = cc
  lt_list-not_less (x ∷ xs) [] (z ∷ zs) h g = cc
  lt_list-not_less (x ∷ xs) (y ∷ ys) (z ∷ zs) h g = ground (
    arith,
    o.same_iff y x,
    o.same_iff z y,
    o.same_iff z x,
    o.not_less x y z,
    o.ties x y,
    o.ties y z,
    o.asym x y,
    o.asym y x,
    o.irrefl x,
    lt_list-not_less xs ys zs,
  )

nat_same_iff : (a b : ℕ) → (nat_same a b ≡ true) ↔ (a ≡ b)
nat_same_iff a b = ground arith

nat_Ordered : Ordered nat_same ltb
nat_Ordered = record {
  same_iff = nat_same_iff;
  irrefl = λ a. ground arith;
  asym = λ a b h. ground arith;
  not_less = λ a b c h g. ground arith;
  ties = λ a b h g. ground arith;
}

str_Ordered : Ordered str_beq lt_str
str_Ordered = record {
  same_iff = str_beq_iff;
  irrefl = lt_list_irrefl nat_same ltb nat_Ordered;
  asym = lt_list-asym nat_same ltb nat_Ordered;
  not_less = lt_list-not_less nat_same ltb nat_Ordered;
  ties = lt_list-ties nat_same ltb nat_Ordered;
}

below_irrefl : (a : Value) → below a a ≡ false
below_irrefl null = refl
below_irrefl (num a) = ground arith
below_irrefl (str a) = str_Ordered.irrefl a

below-asym : (a b : Value) → below a b ≡ true → below b a ≡ false
below-asym null b h = ground arith
below-asym (num a) null h = cc
below-asym (num a) (num b) h = ground arith
below-asym (num a) (str b) h = refl
below-asym (str a) null h = cc
below-asym (str a) (num b) h = cc
below-asym (str a) (str b) h = str_Ordered.asym a b h

below-ties : (a b : Value) → below a b ≡ false → below b a ≡ false → a ≡ b
below-ties null null h g = refl
below-ties null (num b) h g = cc
below-ties null (str b) h g = cc
below-ties (num a) null h g = cc
below-ties (num a) (num b) h g = ground arith
below-ties (num a) (str b) h g = cc
below-ties (str a) null h g = cc
below-ties (str a) (num b) h g = cc
below-ties (str a) (str b) h g = ap str (str_Ordered.ties a b h g)

below-not_less : (a b c : Value) → below b a ≡ false → below c b ≡ false → below c a ≡ false
below-not_less null b null h g = refl
below-not_less null b (num c) h g = refl
below-not_less null b (str c) h g = refl
below-not_less (num a) null c h g = cc
below-not_less (num a) (num b) null h g = cc
below-not_less (num a) (num b) (num c) h g = ground arith
below-not_less (num a) (num b) (str c) h g = refl
below-not_less (num a) (str b) null h g = cc
below-not_less (num a) (str b) (num c) h g = cc
below-not_less (num a) (str b) (str c) h g = refl
below-not_less (str a) null c h g = cc
below-not_less (str a) (num b) null h g = cc
below-not_less (str a) (num b) (num c) h g = cc
below-not_less (str a) (num b) (str c) h g = cc
below-not_less (str a) (str b) null h g = cc
below-not_less (str a) (str b) (num c) h g = cc
below-not_less (str a) (str b) (str c) h g = str_Ordered.not_less a b c h g

value_Ordered : Ordered same_value below
value_Ordered = record {
  same_iff = same_value_iff;
  irrefl = below_irrefl;
  asym = below-asym;
  not_less = below-not_less;
  ties = below-ties;
}

pub key_Ordered : Ordered (λ a b. list_beq a b) lt_key
key_Ordered = record {
  same_iff = list_beq_iff;
  irrefl = lt_list_irrefl same_value below value_Ordered;
  asym = lt_list-asym same_value below value_Ordered;
  not_less = lt_list-not_less same_value below value_Ordered;
  ties = lt_list-ties same_value below value_Ordered;
}
