-- ===== src/PathCd/Tests.antt =====
-- Runs of python/path_cd.py's main, and the theorems at its paths.
use code_recipes.Common.{◌≡◌, refl, true, false, [], ◌∷◌, ◌++◌}
use code_recipes.Common.Eq.{Str, str_eq}
use code_recipes.Common.Dict.{lookup, insert}
use code_recipes.Common.Sort.{elem}
use code_recipes.Common.Result.{ok, err}
use code_recipes.PathCd.FilePath.{FilePath, out_of_fuel, parse, cd, str}
use code_recipes.PathCd.Normal.{all, is_name, cd-cd}
use code_recipes.PathCd.Text.{parse-str-cd}
use code_recipes.PathCd.Links.{absolute, resolve_links}
use code_recipes.PathCd.Endless.{resolve_links-endless}

abbrev a_name : Str
a_name = b'a' ∷ []

-- "/a/../"
abbrev up_again : Str
up_again = b'/' ∷ b'a' ∷ b'/' ∷ b'.' ∷ b'.' ∷ b'/' ∷ []

abbrev up_path : FilePath
up_path = absolute (a_name ∷ (b'.' ∷ b'.' ∷ []) ∷ [])

-- "./b"
abbrev here : Str
here = b'.' ∷ b'/' ∷ b'b' ∷ []

abbrev here_path : FilePath
here_path = record { segs = (b'.' ∷ []) ∷ (b'b' ∷ []) ∷ []; is_abs = false }

text_moved : str (cd up_path here_path) ≡ b'/' ∷ b'b' ∷ []
unfolding cd str
text_moved = refl

resolved :
    resolve_links 3
      ((b'/' ∷ b'a' ∷ [], b'/' ∷ b'c' ∷ []) ∷ [])
      (absolute (a_name ∷ (b'b' ∷ []) ∷ []))
    ≡ ok (b'/' ∷ b'c' ∷ b'/' ∷ b'b' ∷ [])
unfolding resolve_links lookup insert elem
resolved = refl

cd-cd_example :
    (all is_name (cd up_path here_path).segs ≡ true)
    × (cd (cd up_path here_path) up_path
        ≡ cd up_path (record { segs = (a_name ∷ (b'.' ∷ b'.' ∷ []) ∷ []); is_abs = true }))
cd-cd_example = cd-cd up_path here_path up_path

parse-str-cd_example : parse (str (cd up_path here_path)) ≡ ok (cd up_path here_path)
unfolding parse
parse-str-cd_example = parse-str-cd up_again here up_path here_path refl refl refl

resolve_links-endless_example :
    resolve_links 1000
      ((b'/' ∷ a_name, b'/' ∷ a_name ++ b'/' ∷ a_name) ∷ [])
      (absolute (a_name ∷ []))
    ≡ err out_of_fuel
resolve_links-endless_example = resolve_links-endless a_name refl 1000
