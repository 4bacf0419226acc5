-- ===== src/TopK/Movies/Order.antt =====
-- The order of the indices, where no two movies are the same.
use code_recipes.Common.{
  ◌≡◌, refl, sym, ap, ◌∙◌, Bool, true, false, ◌&&◌, ◌||◌, List, arith, Bool-cases, inl, inr,
}
use code_recipes.Common.Eq.{Eq, int_eq, int_beq_iff}
use code_recipes.Common.Int.{ℤ, ltb_ℤ}
use code_recipes.Common.Order.{Order}
use code_recipes.TopK.Movies.Index.{Movie, movie_lt, HctIndex, element, index_lt, same_index}

ltb_ℤ-Order : Order ltb_ℤ
ltb_ℤ-Order = record {
  irrefl = λ a. ground arith;
  trans = λ a b c h g. ground arith;
  total = λ a b h g. (int_beq_iff a b).0 (ground arith);
}

module _ {A B : Type 0} ⦃e : Eq A⦄ (lt_a : A → A → Bool) (lt_b : B → B → Bool) where
  -- The order of tuples.
  abbrev lex_lt : A × B → A × B → Bool
  lex_lt x y = lt_a x.0 y.0 || (e.beq x.0 y.0 && lt_b x.1 y.1)

  lex_trans :
      Order lt_a
      → Order lt_b
      → (a a' a'' : A) (b b' b'' : B) → lex_lt (a, b) (a', b') ≡ true
      → lex_lt (a', b') (a'', b'') ≡ true
      → lex_lt (a, b) (a'', b'') ≡ true
  lex_trans o p a a' a'' b b' b'' h g = elim (Bool-cases (e.beq a a')) [
    | inl same ↦
        let one : a ≡ a' = (e.beq_iff a a').0 same in
        let less : lt_a a' a'' ≡ lt_a a a'' = ap (λ z. lt_a z a'') (sym one) in
        let as_far : e.beq a' a'' ≡ e.beq a a'' = ap (λ z. e.beq z a'') (sym one) in
        let not_less : lt_a a a' ≡ false = ap (lt_a a) (sym one) ∙ o.irrefl a in
        ground (arith, p.trans b b' b'')
    | inr other ↦ elim (Bool-cases (e.beq a' a'')) [
      | inl same ↦
          let one : a' ≡ a'' = (e.beq_iff a' a'').0 same in
          let less : lt_a a a' ≡ lt_a a a'' = ap (lt_a a) one in ground arith
      | inr other' ↦ ground (arith, o.trans a a' a'')
    ]
  ]

  lex_total :
      Order lt_a
      → Order lt_b
      → (a a' : A) (b b' : B) → lex_lt (a, b) (a', b') ≡ false
      → lex_lt (a', b') (a, b) ≡ false
      → ◌≡◌ {A = A × B} (a, b) (a', b')
  lex_total o p a a' b b' h g =
      let one : a ≡ a' = o.total a a' (ground arith) (ground arith) in
      let same : e.beq a a' ≡ true = (e.beq_iff a a').1 one in
      let same' : e.beq a' a ≡ true = (e.beq_iff a' a).1 (sym one) in
      let two : b ≡ b' = p.total b b' (ground arith) (ground arith) in rw (one, two) refl

  lex_lt-Order : Order lt_a → Order lt_b → Order lex_lt
  lex_lt-Order o p = record {
    irrefl = λ x. ground (arith, o.irrefl x.0, p.irrefl x.1);
    trans = λ x y z h g. lex_trans o p x.0 y.0 z.0 x.1 y.1 z.1 h g;
    total = λ x y h g. lex_total o p x.0 y.0 x.1 y.1 h g;
  }

module _ {A B : Type 0} (lt : A → A → Bool) (f : B → A) where
  pulled-Order : Order lt → ((x y : B) → f x ≡ f y → x ≡ y) → Order (λ x y. lt (f x) (f y))
  pulled-Order o inj = record {
    irrefl = λ x. o.irrefl (f x);
    trans = λ x y z h g. o.trans (f x) (f y) (f z) h g;
    total = λ x y h g. inj x y (o.total (f x) (f y) h g);
  }

abbrev fields_of : Movie → ℤ × (ℤ × ℤ)
fields_of m = (m.price, (m.shop, m.movie))

movie_lt-Order : Order movie_lt
movie_lt-Order =
    pulled-Order (lex_lt ltb_ℤ (lex_lt ltb_ℤ ltb_ℤ)) fields_of
      (lex_lt-Order _ _ ltb_ℤ-Order (lex_lt-Order _ _ ltb_ℤ-Order ltb_ℤ-Order))
      (λ m n h. ground arith)

-- No two places hold the same movie.
abbrev pub NoneTwice : List Movie → Type 0
NoneTwice movies = (a b : HctIndex movies) → element movies a ≡ element movies b → a.idx ≡ b.idx

pub index_lt-Order : (movies : List Movie) → NoneTwice movies → Order (index_lt movies)
index_lt-Order movies n =
    pulled-Order movie_lt (element movies) movie_lt-Order (λ a b h. same_index movies a b (n a b h))
