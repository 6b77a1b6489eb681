-- ===== src/Label.antt =====
-- label/module.go: the names of modules, repositories and identifiers, and labels. The regular
-- expressions are scans from the left; a value that is made has passed its scan.
pub mod Parts
pub mod Tests
use go_bzlmod.Prelude.{
  ℕ, Bool, true, false, ◌&&◌, ◌||◌, Str, codes, Option, none, some, Result, ok, err, ◌>>=◌, List,
  [], ◌∷◌, ◌++◌, leb, all, split, if◌then◌else◌, ◌==◌, nat_eq, list_eq,
}

abbrev pub is_lower : ℕ → Bool
is_lower c = leb b'a' c && leb c b'z'

abbrev is_upper : ℕ → Bool
is_upper c = leb b'A' c && leb c b'Z'

abbrev is_digit : ℕ → Bool
is_digit c = leb b'0' c && leb c b'9'

abbrev is_mark : ℕ → Bool
is_mark c = c == b'.' || (c == b'_' || c == b'-')

-- The classes [a-z0-9._-], [a-zA-Z0-9._-] and [a-zA-Z0-9_].
abbrev pub is_module_char : ℕ → Bool
is_module_char c = is_lower c || (is_digit c || is_mark c)

abbrev pub is_repo_char : ℕ → Bool
is_repo_char c = is_lower c || (is_upper c || (is_digit c || is_mark c))

abbrev pub is_identifier_char : ℕ → Bool
is_identifier_char c = is_lower c || (is_upper c || (is_digit c || c == b'_'))

pub data LabelError : Type 0 where
  empty_name : LabelError
  invalid_name : Str → LabelError
  missing_slashes : Str → LabelError
  invalid_label : Str → LabelError

-- `([a-z0-9._-]*[a-z0-9])?$`
unfoldable pub match_module_tail : Str → Bool
match_module_tail [] = true
match_module_tail (c ∷ []) = is_lower c || is_digit c
match_module_tail (c ∷ d ∷ s) = is_module_char c && match_module_tail (d ∷ s)

abbrev pub match_module_name : Str → Bool
match_module_name [] = false
match_module_name (c ∷ s) = is_lower c && match_module_tail s

unfoldable pub new_module : Str → Result LabelError Str
new_module name =
    if name == []
    then err empty_name
    else if match_module_name name
    then ok name
    else err (invalid_name name)

abbrev pub match_repo_name : Str → Bool
match_repo_name [] = false
match_repo_name (c ∷ s) = (is_lower c || is_upper c) && all is_repo_char s

-- An empty name is valid: it stands for the name of the module.
unfoldable pub new_apparent_repo : Str → Result LabelError Str
new_apparent_repo name =
    if name == [] then ok [] else if match_repo_name name then ok name else err (invalid_name name)

-- The version of a canonical repository is given by its text.
unfoldable pub canonical_repo_string : Str → Str → Str
canonical_repo_string name version =
    if version == [] then name ++ codes "~" else name ++ (codes "+" ++ version)

abbrev pub match_identifier : Str → Bool
match_identifier [] = false
match_identifier (c ∷ s) = (is_lower c || (is_upper c || c == b'_')) && all is_identifier_char s

unfoldable pub new_starlark_identifier : Str → Result LabelError Str
new_starlark_identifier name =
    if name == []
    then err empty_name
    else if match_identifier name
    then ok name
    else err (invalid_name name)

pub record ApparentLabel : Type 0 where
  pub repo : Str
  pub pkg : Str
  pub target : Str
  pub raw : Str

abbrev pub put_first : ℕ → Option (Str × Str) → Option (Str × Str)
put_first c none = none
put_first c (some (a, b)) = some (c ∷ a, b)

abbrev pub after_slash : Str → Option Str
after_slash [] = none
after_slash (c ∷ s) = if c == b'/' then some s else none

-- `strings.Cut` at "//", and at ":".
unfoldable pub cut_slashes : Str → Option (Str × Str)
cut_slashes [] = none
cut_slashes (c ∷ s) =
    let found = put_first c (cut_slashes s) in
    if c == b'/' then elim (after_slash s) [ none ↦ found | some rest ↦ some ([], rest) ] else found

unfoldable pub cut_colon : Str → Option (Str × Str)
cut_colon [] = none
cut_colon (c ∷ s) =
    let found = put_first c (cut_colon s) in if c == b':' then some ([], s) else found

abbrev pub last_part : List Str → Str
last_part [] = []
last_part (p ∷ []) = p
last_part (p ∷ q ∷ ps) = last_part (q ∷ ps)

-- The part `//pkg:target`, `//pkg` or `:target`.
unfoldable pub parse_in_repo : Str → Str → Str → Result LabelError ApparentLabel
parse_in_repo raw repo [] = err (invalid_label [])
parse_in_repo raw repo (c ∷ s) =
    if c == b':'
    then ok (record { repo = repo; pkg = []; target = s; raw = raw })
    else elim (if c == b'/' then after_slash s else none) [
      | none ↦ err (invalid_label (c ∷ s))
      | some body ↦ elim (cut_colon body) [
        | none ↦
            ok (record { repo = repo; pkg = body; target = last_part (split b'/' body); raw = raw })
        | some (pkg, target) ↦ ok (record { repo = repo; pkg = pkg; target = target; raw = raw })
      ]
    ]

unfoldable pub parse_apparent_label : Str → Result LabelError ApparentLabel
parse_apparent_label [] = parse_in_repo [] [] []
parse_apparent_label (c ∷ s) =
    if c == b'@'
    then elim (cut_slashes s) [
      | none ↦ err (missing_slashes (c ∷ s))
      | some (name, rest) ↦
          new_apparent_repo name >>= λ repo. parse_in_repo (c ∷ s) repo (b'/' ∷ b'/' ∷ rest)
    ]
    else parse_in_repo (c ∷ s) [] (c ∷ s)
