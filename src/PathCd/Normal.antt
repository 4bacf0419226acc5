-- ===== src/PathCd/Normal.antt =====
-- `cd` leaves no `.` and no `..`, and steps of it compose.
use code_recipes.Common.{
  ◌≡◌, refl, sym, ap, ◌∙◌, arith, Bool, true, false, ◌&&◌, ◌||◌, not, if◌then◌else◌, List, [], ◌∷◌,
  ◌++◌, append-nil, append_assoc,
}
use code_recipes.Common.Eq.{Str, str_beq}
use code_recipes.PathCd.FilePath.{FilePath, dot, dot_dot, pop, cd_step, cd_loop, cd}

abbrev pub all : (Str → Bool) → List Str → Bool
all test [] = true
all test (s ∷ ss) = test s && all test ss

pub all-append :
    (test : Str → Bool) (xs ys : List Str) → all test (xs ++ ys) ≡ (all test xs && all test ys)
all-append test [] ys = refl
all-append test (x ∷ xs) ys = ground (arith, all-append test xs ys)

-- A name of a file or a directory.
abbrev pub is_name : Str → Bool
is_name s = not (str_beq s dot) && not (str_beq s dot_dot)

all-pop :
    (test : Str → Bool) (stack : List Str) → all test stack ≡ true → all test (pop stack) ≡ true
all-pop test [] h = refl
all-pop test (s ∷ []) h = refl
all-pop test (s ∷ s' ∷ ss) h = ground (arith, all-pop test (s' ∷ ss))

cd_step-names :
    (stack : List Str) (seg : Str)
    → all is_name stack ≡ true
    → all is_name (cd_step stack seg) ≡ true
unfolding cd_step
cd_step-names stack seg h =
    ground (arith, all-pop is_name stack, all-append is_name stack (seg ∷ []))

cd_loop-names :
    (stack segs : List Str) → all is_name stack ≡ true → all is_name (cd_loop stack segs) ≡ true
unfolding cd_loop
cd_loop-names stack [] h = h
cd_loop-names stack (seg ∷ segs) h =
    cd_loop-names (cd_step stack seg) segs (cd_step-names stack seg h)

-- A test that the segments pass holds of what `cd` leaves of them.
cd_step-all :
    (test : Str → Bool) (stack : List Str) (seg : Str)
    → all test stack ≡ true
    → test seg ≡ true
    → all test (cd_step stack seg) ≡ true
unfolding cd_step
cd_step-all test stack seg h t =
    ground (arith, all-pop test stack, all-append test stack (seg ∷ []))

pub cd_loop-all :
    (test : Str → Bool) (stack segs : List Str)
    → all test stack ≡ true
    → all test segs ≡ true
    → all test (cd_loop stack segs) ≡ true
unfolding cd_loop
cd_loop-all test stack [] h t = h
cd_loop-all test stack (seg ∷ segs) h t =
    cd_loop-all test (cd_step stack seg) segs (cd_step-all test stack seg h (ground arith))
      (ground arith)

cd_loop-append : (stack xs ys : List Str) → cd_loop stack (xs ++ ys) ≡ cd_loop (cd_loop stack xs) ys
unfolding cd_loop
cd_loop-append stack [] ys = refl
cd_loop-append stack (x ∷ xs) ys = cd_loop-append (cd_step stack x) xs ys

-- Names are pushed as they are.
cd_loop-of_names : (stack xs : List Str) → all is_name xs ≡ true → cd_loop stack xs ≡ stack ++ xs
unfolding cd_loop cd_step
cd_loop-of_names stack [] h = sym (append-nil stack)
cd_loop-of_names stack (x ∷ xs) h =
    let no_dot : str_beq x dot ≡ false = ground arith in
    let no_dots : str_beq x dot_dot ≡ false = ground arith in
    rw (no_dot, no_dots)
      (cd_loop-of_names (stack ++ x ∷ []) xs (ground arith) ∙ append_assoc stack (x ∷ []) xs)

-- Normalising first changes nothing.
cd_loop-normal : (xs ys : List Str) → cd_loop [] (cd_loop [] xs ++ ys) ≡ cd_loop [] (xs ++ ys)
cd_loop-normal xs ys =
    cd_loop-append [] (cd_loop [] xs) ys
    ∙ ap (λ stack. cd_loop stack ys)
        (cd_loop-of_names [] (cd_loop [] xs) (cd_loop-names [] xs refl))
    ∙ sym (cd_loop-append [] xs ys)

cd-cd_segs :
    (self p q : List Str) (p_abs q_abs : Bool)
    → cd_loop []
        ((if not q_abs then cd_loop [] ((if not p_abs then self else []) ++ p) else []) ++ q)
      ≡ cd_loop [] ((if not (p_abs || q_abs) then self else []) ++ ((if q_abs then [] else p) ++ q))
cd-cd_segs self p q true true = refl
cd-cd_segs self p q false true = refl
cd-cd_segs self p q true false = cd_loop-normal p q
cd-cd_segs self p q false false =
    cd_loop-normal (self ++ p) q ∙ ap (cd_loop []) (append_assoc self p q)

or_assoc : (a b c : Bool) → (a || b || c) ≡ (a || (b || c))
or_assoc a b c = ground arith

same_path :
    {ss ss' : List Str} {a a' : Bool}
    → ss ≡ ss'
    → a ≡ a'
    → ◌≡◌ {A = FilePath} (record { segs = ss; is_abs = a }) (record { segs = ss'; is_abs = a' })
same_path e e' = cc

-- After `cd` the path has no segment `.` and none `..`, and two calls of `cd` go where one call goes
-- with the two paths after one another, or with the second alone if that is absolute.
pub cd-cd :
    (self p q : FilePath)
    → (all is_name (cd self p).segs ≡ true)
      × (cd (cd self p) q
          ≡ cd self (record {
            segs = (if q.is_abs then [] else p.segs) ++ q.segs;
            is_abs = p.is_abs || q.is_abs;
          }))
unfolding cd
cd-cd self p q = (
  cd_loop-names [] ((if not p.is_abs then self.segs else []) ++ p.segs) refl,
  same_path (cd-cd_segs self.segs p.segs q.segs p.is_abs q.is_abs)
      (or_assoc self.is_abs p.is_abs q.is_abs),
)
