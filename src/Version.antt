-- ===== src/Version.antt =====
-- selection/version/version.go: parsing and comparison of Bazel's module versions. A version is
-- a byte string; the groups of the regular expression are found by a scan from the left, which is
-- what the expression does, since no class holds the byte that ends its group.
pub mod Order
pub mod Pattern
pub mod Parts
pub mod Cycle
pub mod Sorting
mod Tests
use go_bzlmod.Prelude.{
  ℕ, zero, ◌+◌, ◌-◌, ◌*◌, ◌^◌, Ordering, lt, eq, gt, Str, codes, strings_compare, split, span, all,
  Bool, true, false, not, ◌&&◌, ◌||◌, Option, none, some, List, [], ◌∷◌, ◌++◌, map, ltb, leb,
  length, if◌then◌else◌, Result, ok, err, ◌==◌, nat_eq, bool_eq, compare as compare_ℕ,
}

abbrev is_digit : ℕ → Bool
is_digit c = leb b'0' c && leb c b'9'

abbrev is_letter : ℕ → Bool
is_letter c = (leb b'a' c && leb c b'z') || (leb b'A' c && leb c b'Z')

-- The class [a-zA-Z0-9.] of a release.
abbrev pub is_release_char : ℕ → Bool
is_release_char c = is_letter c || is_digit c || c == b'.'

-- The class [a-zA-Z0-9.-] of a prerelease and of a build.
abbrev pub is_prerelease_char : ℕ → Bool
is_prerelease_char c = is_release_char c || c == b'-'

-- The last group, (?:\+[a-zA-Z0-9.-]+)?, up to the end of the text.
unfoldable pub match_build : Str → Bool
match_build [] = true
match_build (c ∷ []) = false
match_build (c ∷ s) = c == b'+' && all is_prerelease_char s

-- The group (?:-(?P<prerelease>[a-zA-Z0-9.-]+))?, and what follows it.
unfoldable pub match_prerelease : Str → Option Str
match_prerelease [] = some []
match_prerelease (c ∷ s) =
    let (prerelease, rest) = span is_prerelease_char s in
    if c == b'-'
    then if length prerelease == 0 then none else if match_build rest then some prerelease else none
    else if match_build (c ∷ s)
    then some []
    else none

abbrev with_release : Str → Option Str → Option (Str × Str)
with_release release none = none
with_release release (some prerelease) = some (release, prerelease)

-- `versionPattern.FindStringSubmatch`: the groups release and prerelease.
unfoldable pub match_pattern : Str → Option (Str × Str)
match_pattern s =
    let (release, rest) = span is_release_char s in
    if length release == 0 then none else with_release release (match_prerelease rest)

pub record Identifier : Type 0 where
  pub is_digits_only : Bool
  pub as_number : ℕ
  pub as_string : Str

-- The value of a text of digits.
abbrev digits_value : ℕ → Str → ℕ
digits_value n [] = n
digits_value n (c ∷ s) = digits_value (n * 10 + (c - b'0')) s

-- `strconv.ParseUint(s, 10, 64)`
unfoldable pub parse_uint : Str → Option ℕ
parse_uint [] = none
parse_uint s =
    if all is_digit s && ltb (digits_value 0 s) (2 ^ 64) then some (digits_value 0 s) else none

-- Digits outside of ASCII count as digits for `unicode.IsDigit` and fail in `ParseUint`, so they
-- make no identifier digits-only either way.
unfoldable pub parse_identifier : Str → Identifier
parse_identifier [] = record { is_digits_only = false; as_number = 0; as_string = [] }
parse_identifier s =
    let plain : Identifier = record { is_digits_only = false; as_number = 0; as_string = s } in
    if all is_digit s
    then elim (parse_uint s) [
      | some num ↦ record { is_digits_only = true; as_number = num; as_string = s }
      | none ↦ plain
    ]
    else plain

unfoldable pub compare_identifiers : Identifier → Identifier → Ordering
compare_identifiers a b =
    if not (a.is_digits_only == b.is_digits_only)
    then if a.is_digits_only then lt else gt
    else if a.is_digits_only
    then if ltb a.as_number b.as_number then lt else if ltb b.as_number a.as_number then gt else eq
    else strings_compare a.as_string b.as_string

pub record ParsedVersion : Type 0 where
  pub release : List Identifier
  pub prerelease : List Identifier
  pub normalized : Str
  pub is_empty : Bool

pub record ParseError : Type 0 where
  pub version : Str
  pub message : Str

-- The body of `Parse` behind a match of the pattern.
unfoldable pub parsed_of_groups : Str → Str → ParsedVersion
parsed_of_groups release prerelease =
    let prereleased = not (length prerelease == 0) in
    record {
      release = map parse_identifier (split b'.' release);
      prerelease = if prereleased then map parse_identifier (split b'.' prerelease) else [];
      normalized = if prereleased then release ++ (b'-' ∷ prerelease) else release;
      is_empty = false;
    }

unfoldable pub parse : Str → Result ParseError ParsedVersion
parse [] = ok (record { release = []; prerelease = []; normalized = []; is_empty = true })
parse s = elim (match_pattern s) [
  | none ↦ err (record { version = s; message = codes "does not match version pattern" })
  | some (release, prerelease) ↦ ok (parsed_of_groups release prerelease)
]

-- The loop over the indices that both lists have: the first difference, if there is one.
unfoldable pub first_difference : List Identifier → List Identifier → Ordering
first_difference (x ∷ xs) (y ∷ ys) =
    let rest = first_difference xs ys in
    elim (compare_identifiers x y) [ lt ↦ lt | eq ↦ rest | gt ↦ gt ]
first_difference _ _ = eq

unfoldable pub compare_identifier_lists : List Identifier → List Identifier → Ordering
compare_identifier_lists a b = elim (first_difference a b) [
  | lt ↦ lt
  | eq ↦ compare_ℕ (length a) (length b)
  | gt ↦ gt
]

-- `Compare` behind the two calls of `Parse`.
unfoldable pub compare_parsed : ParsedVersion → ParsedVersion → Ordering
compare_parsed va vb =
    if not (va.is_empty == vb.is_empty)
    then if va.is_empty then gt else lt
    else if va.is_empty && vb.is_empty
    then eq
    else elim (compare_identifier_lists va.release vb.release) [
      | lt ↦ lt
      | gt ↦ gt
      | eq ↦
          let a_is_pre = ltb 0 (length va.prerelease) in
          let b_is_pre = ltb 0 (length vb.prerelease) in
          if not (a_is_pre == b_is_pre)
          then if a_is_pre then lt else gt
          else compare_identifier_lists va.prerelease vb.prerelease
    ]

unfoldable pub compare_results :
    Str → Str → Result ParseError ParsedVersion → Result ParseError ParsedVersion → Ordering
compare_results a b (ok va) (ok vb) = compare_parsed va vb
compare_results a b (err e) vb = strings_compare a b
compare_results a b va (err e) = strings_compare a b

unfoldable pub compare : Str → Str → Ordering
compare a b = compare_results a b (parse a) (parse b)

-- `slices.SortFunc(versions, Compare)`, here by insertion. Its order of versions that compare
-- equal is not specified.
unfoldable pub insert_sorted : Str → List Str → List Str
insert_sorted v [] = v ∷ []
insert_sorted v (w ∷ vs) =
    let rest = insert_sorted v vs in elim (compare v w) [ gt ↦ w ∷ rest | _ ↦ v ∷ w ∷ vs ]

unfoldable pub sort : List Str → List Str
sort [] = []
sort (v ∷ vs) = insert_sorted v (sort vs)

unfoldable pub max : Str → Str → Str
max a b = elim (compare a b) [ lt ↦ b | _ ↦ a ]
