-- ===== src/PathCd/Endless.antt =====
-- A link into a directory below itself: `resolve_links` never returns.
use code_recipes.Common.{
  ℕ, zero, suc, ◌≤◌, ◌<◌, ◌≡◌, refl, ap, ◌∙◌, arith, true, false, none, some, List, [], ◌∷◌, ◌++◌,
  length, length-append, length-replicate, replicate, take, Bool-cases, inl, inr,
}
use code_recipes.Common.Eq.{Str, str_beq, str_beq_iff, str_eq}
use code_recipes.Common.Dict.{Dict, lookup, insert}
use code_recipes.Common.Sort.{elem}
use code_recipes.Common.Result.{ok, err}
use code_recipes.PathCd.FilePath.{FilePath, out_of_fuel, parse, str, join}
use code_recipes.PathCd.Normal.{all}
use code_recipes.PathCd.Text.{is_segment, split-join, parse-str_segments}
use code_recipes.PathCd.Links.{
  absolute, read_links, find_link, resolve_loop, resolve_loop-hop, resolve_links,
}

-- The text of the path of `n + 1` names `s`.
abbrev nested : Str → ℕ → List Str
nested s n = s ∷ replicate n s

length-join : (s : Str) (n : ℕ) → length (join (nested s n)) < length (join (nested s (suc n)))
unfolding join
length-join s zero = omega (arith, length-append s (b'/' ∷ s))
length-join s (suc n) = omega (
  arith,
  length-join s n,
  length-append s (b'/' ∷ join (nested s n)),
  length-append s (b'/' ∷ join (nested s (suc n))),
)

str_beq-shorter : (s t : Str) → length s < length t → str_beq s t ≡ false
str_beq-shorter s t h = elim (Bool-cases (str_beq s t)) [
  | inl same ↦ absurd (omega (arith, ap (λ (u : Str). length u) ((str_beq_iff s t).0 same)))
  | inr other ↦ other
]

-- Every text is at most so long.
abbrev Within : ℕ → List Str → Type 0
Within n [] = Unit
Within n (t ∷ ts) = (length t ≤ n) × Within n ts

Within-mono : (m n : ℕ) (ts : List Str) → m ≤ n → Within m ts → Within n ts
Within-mono m n [] h w = tt
Within-mono m n (t ∷ ts) h (le, w) = (omega arith, Within-mono m n ts h w)

elem-Within : (t : Str) (n : ℕ) (ts : List Str) → n < length t → Within n ts → elem t ts ≡ false
unfolding elem
elem-Within t n [] h w = refl
elem-Within t n (u ∷ ts) h (le, w) =
    rw (str_beq-shorter u t (omega arith), elem) (elem-Within t n ts h w)

module _ (s : Str) where
  abbrev links : Dict Str FilePath
  links = (b'/' ∷ s, absolute (s ∷ s ∷ [])) ∷ []

  take-nested : (l n : ℕ) → l ≤ n → take (suc l) (nested s n) ≡ nested s l
  take-nested zero n h = refl
  take-nested (suc l) zero h = absurd (omega arith)
  take-nested (suc l) (suc n) h = ap (λ ss. s ∷ ss) (take-nested l n (omega arith))

  text_of : ℕ → Str
  text_of n = str (absolute (nested s n))

  length-text_of : (n : ℕ) → length (text_of n) ≡ suc (length (join (nested s n)))
  unfolding text_of str
  length-text_of n = refl

  -- Only the prefix of one name is a link.
  lookup-longer : (l : ℕ) → lookup (str (absolute (nested s (suc l)))) links ≡ none
  unfolding lookup str join
  lookup-longer l = rw (
      str_beq-shorter (b'/' ∷ s) (b'/' ∷ s ++ b'/' ∷ join (nested s l))
        (omega (arith, length-append s (b'/' ∷ join (nested s l)))))

  lookup-one : lookup (str (absolute (nested s zero))) links ≡ some (absolute (s ∷ s ∷ []))
  unfolding lookup str join
  lookup-one = rw ((str_beq_iff s s).1 refl)

  find_link-nested :
      (l n : ℕ) → l ≤ n → find_link (suc l) links (nested s n) ≡ some (nested s (suc n))
  unfolding find_link
  find_link-nested zero n h = rw (lookup-one, find_link)
  find_link-nested (suc l) n h =
      rw (take-nested (suc l) n h, lookup-longer l, find_link) (find_link-nested l n (omega arith))

  find_link-whole :
      (n : ℕ) → find_link (length (nested s n)) links (nested s n) ≡ some (nested s (suc n))
  find_link-whole n =
      ap (λ l. find_link (suc l) links (nested s n)) (length-replicate n s)
      ∙ find_link-nested n n (omega arith)

  text_of-longer : (n : ℕ) → length (text_of n) < length (text_of (suc n))
  text_of-longer n = omega (arith, length-join s n, length-text_of n, length-text_of (suc n))

  resolve_loop-nested :
      (fuel n : ℕ) (visited : List Str)
      → Within (length (text_of n)) visited
      → resolve_loop fuel links visited (nested s n) ≡ err out_of_fuel
  unfolding resolve_loop text_of
  resolve_loop-nested zero n visited w = refl
  resolve_loop-nested (suc fuel) n visited w =
      resolve_loop-hop fuel links visited (nested s n) (nested s (suc n)) (find_link-whole n)
        (elem-Within (text_of (suc n)) (length (text_of n)) visited (text_of-longer n) w)
      ∙ resolve_loop-nested fuel (suc n) (text_of (suc n) ∷ visited) (
        omega arith,
        Within-mono (length (text_of n)) (length (text_of (suc n))) visited
            (omega (arith, text_of-longer n)) w,
      )

read_links-one :
    (k v : Str) (p q : FilePath)
    → parse k ≡ ok p
    → parse v ≡ ok q
    → p.is_abs ≡ true
    → q.is_abs ≡ true
    → read_links ((k, v) ∷ []) [] ≡ ok ((str p, q) ∷ [])
unfolding read_links insert
read_links-one k v p q one two a b = rw (one, two, a, b)

-- One link, from the text of the path itself.
resolve_links-one :
    (fuel : ℕ) (v : Str) (segs segs' : List Str)
    → all is_segment segs ≡ true
    → parse v ≡ ok (absolute segs')
    → resolve_links fuel ((str (absolute segs), v) ∷ []) (absolute segs)
      ≡ resolve_loop fuel
          ((str (absolute segs), absolute segs') ∷ [])
          (str (absolute segs) ∷ [])
          segs
unfolding resolve_links
resolve_links-one fuel v segs segs' one two = rw (
  resolve_links,
  read_links-one (str (absolute segs)) v (absolute segs) (absolute segs')
      (parse-str_segments segs one) two refl refl,
  split-join segs one,
)

-- For a name `s` that is not empty and has no slash: with a link from `/s` to `/s/s` the loop of `resolve_links` on `/s` does not end: no
-- number of rounds is enough. The texts grow, so no path comes back.
pub resolve_links-endless :
    (s : Str)
    → is_segment s ≡ true
    → (fuel : ℕ)
    → resolve_links fuel ((b'/' ∷ s, b'/' ∷ s ++ b'/' ∷ s) ∷ []) (absolute (s ∷ []))
      ≡ err out_of_fuel
unfolding str join text_of
resolve_links-endless s h fuel =
    let two : parse (b'/' ∷ s ++ b'/' ∷ s) ≡ ok (absolute (s ∷ s ∷ [])) =
      parse-str_segments (s ∷ s ∷ []) (ground arith) in
    resolve_links-one fuel (b'/' ∷ s ++ b'/' ∷ s) (s ∷ []) (s ∷ s ∷ []) (ground arith) two
    ∙ resolve_loop-nested s fuel 0 ((b'/' ∷ s) ∷ []) (omega arith, tt)
