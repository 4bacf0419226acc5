-- ===== src/PathCd/Text.antt =====
-- The text of a path gives the path back.
use code_recipes.Common.{
  ℕ, ◌≡◌, refl, ap, arith, Bool, true, false, ◌&&◌, ◌==◌, not, if◌then◌else◌, List, [], ◌∷◌, ◌++◌,
  filter,
}
use code_recipes.Common.Eq.{Str}
use code_recipes.Common.Result.{ok}
use code_recipes.PathCd.FilePath.{
  FilePath, onto_first, split, nonempty, of_text, parse, cd_loop, cd, join, str,
}
use code_recipes.PathCd.Normal.{all, cd_loop-all, all-append}

abbrev pub no_slash : Str → Bool
no_slash [] = true
no_slash (c ∷ cs) = not (c == b'/') && no_slash cs

-- What stands between slashes and is kept.
abbrev pub is_segment : Str → Bool
is_segment s = nonempty s && no_slash s

-- Splitting at slashes.
all-onto_first :
    (c : ℕ) (ss : List Str)
    → (c == b'/') ≡ false
    → all no_slash ss ≡ true
    → all no_slash (onto_first c ss) ≡ true
all-onto_first c [] h k = ground arith
all-onto_first c (s ∷ ss) h k = ground arith

all-split : (s : Str) → all no_slash (split s) ≡ true
unfolding split
all-split [] = refl
all-split (c ∷ cs) = ground (arith, all-split cs, all-onto_first c (split cs))

all-filter-nonempty :
    (ss : List Str) → all no_slash ss ≡ true → all is_segment (filter nonempty ss) ≡ true
all-filter-nonempty [] h = refl
all-filter-nonempty (s ∷ ss) h = ground (arith, all-filter-nonempty ss)

of_text-segments : (c : ℕ) (cs : Str) → all is_segment (of_text c cs).segs ≡ true
unfolding of_text
of_text-segments c cs = all-filter-nonempty (split (c ∷ cs)) (all-split (c ∷ cs))

parse-segments : (s : Str) (p : FilePath) → parse s ≡ ok p → all is_segment p.segs ≡ true
unfolding parse
parse-segments [] p h = cc
parse-segments (c ∷ cs) p h =
    ground (arith, of_text-segments c cs, of_text-segments b'/' (b'h' ∷ b'o' ∷ b'm' ∷ b'e' ∷ cs))

-- A segment in front of a slash is split off.
split-segment : (s rest : Str) → no_slash s ≡ true → split (s ++ b'/' ∷ rest) ≡ s ∷ split rest
unfolding split
split-segment [] rest h = refl
split-segment (c ∷ cs) rest h =
    let other : (c == b'/') ≡ false = ground arith in
    rw (other, split-segment cs rest (ground arith))

split-last : (s : Str) → no_slash s ≡ true → split s ≡ s ∷ []
unfolding split
split-last [] h = refl
split-last (c ∷ cs) h =
    let other : (c == b'/') ≡ false = ground arith in rw (other, split-last cs (ground arith))

pub split-join : (ss : List Str) → all is_segment ss ≡ true → filter nonempty (split (join ss)) ≡ ss
unfolding join split
split-join [] h = refl
split-join (s ∷ []) h =
    let kept : nonempty s ≡ true = ground arith in rw (split-last s (ground arith), kept)
split-join (s ∷ s' ∷ ss) h =
    let kept : nonempty s ≡ true = ground arith in
    rw (split-segment s (join (s' ∷ ss)) (ground arith), kept)
      (ap (λ rest. s ∷ rest) (split-join (s' ∷ ss) (ground arith)))

pub parse-str_segments :
    (ss : List Str)
    → all is_segment ss ≡ true
    → parse (str (record { segs = ss; is_abs = true })) ≡ ok (record { segs = ss; is_abs = true })
unfolding parse str of_text split
parse-str_segments ss h = rw (split-join ss h)

joined-segments :
    (b : Bool) (xs ys : List Str)
    → all is_segment xs ≡ true
    → all is_segment ys ≡ true
    → all is_segment ((if b then xs else []) ++ ys) ≡ true
joined-segments true xs ys h k = ground (arith, all-append is_segment xs ys)
joined-segments false xs ys h k = k

-- `cd` from an absolute path to any path, both read from texts: the text of the result is read back
-- as the result.
pub parse-str-cd :
    (s t : Str) (p q : FilePath)
    → parse s ≡ ok p
    → parse t ≡ ok q
    → p.is_abs ≡ true
    → parse (str (cd p q)) ≡ ok (cd p q)
unfolding cd
parse-str-cd s t p q from to abs =
    let segments =
      cd_loop-all is_segment [] ((if not q.is_abs then p.segs else []) ++ q.segs) refl (
        joined-segments (not q.is_abs) p.segs q.segs (parse-segments s p from)
          (parse-segments t q to)) in
    rw abs
      (parse-str_segments (cd_loop [] ((if not q.is_abs then p.segs else []) ++ q.segs)) segments)
