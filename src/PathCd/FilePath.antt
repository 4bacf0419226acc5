-- ===== src/PathCd/FilePath.antt =====
-- `Path` of python/path_cd.py: its constructor, `cd` and `__str__`. `cd` changes the receiver and
-- returns it: here it returns the changed path.
use code_recipes.Common.{
  ℕ, Bool, true, false, ◌||◌, ◌==◌, not, if◌then◌else◌, List, [], ◌∷◌, ◌++◌, filter,
}
use code_recipes.Common.Eq.{Str, str_beq}
use code_recipes.Common.Result.{Result, ok, err}

-- The exceptions, and the end of the model's fuel.
pub data Error : Type 0 where
  runtime_error assertion_error out_of_fuel : Error

abbrev pub Run {ℓ} : Type ℓ → Type ℓ
Run A = Result Error A

pub record FilePath : Type 0 where
  pub segs : List Str
  pub is_abs : Bool

-- `p.split("/")`
abbrev pub onto_first : ℕ → List Str → List Str
onto_first c [] = (c ∷ []) ∷ []
onto_first c (s ∷ ss) = (c ∷ s) ∷ ss

unfoldable pub split : Str → List Str
split [] = [] ∷ []
split (c ∷ cs) = if c == b'/' then [] ∷ split cs else onto_first c (split cs)

abbrev pub nonempty : Str → Bool
nonempty [] = false
nonempty (c ∷ cs) = true

abbrev pub home : Str
home = b'/' ∷ b'h' ∷ b'o' ∷ b'm' ∷ b'e' ∷ []

-- The path of a text that is not empty and has no `~` in front any more.
unfoldable pub of_text : ℕ → Str → FilePath
unfolding split
of_text c cs = record { segs = filter nonempty (split (c ∷ cs)); is_abs = c == b'/' }

-- `Path(p)`
unfoldable pub parse : Str → Run FilePath
unfolding of_text
parse [] = err runtime_error
parse (c ∷ cs) =
    ok (if c == b'~' then of_text b'/' (b'h' ∷ b'o' ∷ b'm' ∷ b'e' ∷ cs) else of_text c cs)

abbrev pub dot : Str
dot = b'.' ∷ []

abbrev pub dot_dot : Str
dot_dot = b'.' ∷ b'.' ∷ []

-- `stack.pop()`, if there is something
abbrev pub pop : List Str → List Str
pop [] = []
pop (s ∷ []) = []
pop (s ∷ s' ∷ ss) = s ∷ pop (s' ∷ ss)

-- One round of the loop of `cd`.
unfoldable pub cd_step : List Str → Str → List Str
cd_step stack seg =
    if str_beq seg dot then stack else if str_beq seg dot_dot then pop stack else stack ++ seg ∷ []

unfoldable pub cd_loop : List Str → List Str → List Str
unfolding cd_step
cd_loop stack [] = stack
cd_loop stack (seg ∷ segs) = cd_loop (cd_step stack seg) segs

unfoldable pub cd : FilePath → FilePath → FilePath
unfolding cd_loop
cd self p = record {
  segs = cd_loop [] ((if not p.is_abs then self.segs else []) ++ p.segs);
  is_abs = self.is_abs || p.is_abs;
}

-- `"/".join(segs)`
unfoldable pub join : List Str → Str
join [] = []
join (s ∷ []) = s
join (s ∷ s' ∷ ss) = s ++ b'/' ∷ join (s' ∷ ss)

-- `__str__`
unfoldable pub str : FilePath → Str
unfolding join
str p = (if p.is_abs then b'/' ∷ [] else []) ++ join p.segs
