-- ===== src/Version/Parts.antt =====
-- What the parts of a version mean for `Parse` and `Compare` of selection/version/version.go.
use go_bzlmod.Prelude.{
  ℕ, ◌<◌, lt, eq, gt, Str, true, false, Option, none, some, Option-cases, List, [], ◌∷◌, map,
  length, ok, ◌≡◌, refl, sym, ◌∙◌, ◌≢◌, inl, inr, arith, split, cons_head, Bool-cases, ◌==◌, nat_eq,
  length-map,
}
use go_bzlmod.Prelude.Orders.{eq_of_flip}
use go_bzlmod.Version.{
  ParsedVersion, parsed_of_groups, parse, parse_identifier, compare_parsed,
  compare_identifier_lists, match_pattern, compare_results, compare,
}
use go_bzlmod.Version.Order.{
  IsValid, compare-eq-compare_parsed, compare_identifier_lists-IsPreorder,
}
use go_bzlmod.Version.Pattern.{IsGrammatical, render, group, match_pattern_iff}

pub parse-render :
    (release : Str) (prerelease build : Option Str)
    → IsGrammatical release prerelease build
    → parse (render release prerelease build) ≡ ok (parsed_of_groups release (group prerelease))
unfolding parse
parse-render [] prerelease build h = absurd (omega (arith, h.release_part.1))
parse-render (c ∷ r) prerelease build h = rw (
  (match_pattern_iff (render (c ∷ r) prerelease build) (c ∷ r) (group prerelease)).1
      (prerelease, build, h, refl, refl),
  parse,
)

abbrev pub render-IsValid :
    (release : Str) (prerelease build : Option Str)
    → IsGrammatical release prerelease build
    → IsValid (render release prerelease build)
render-IsValid release prerelease build h = record {
  parsed = parsed_of_groups release (group prerelease);
  parses = parse-render release prerelease build h;
}

-- A version with a build compares with every version that parses as the one without it does.
pub compare_build :
    (release : Str) (prerelease build : Option Str) (other : Str)
    → IsGrammatical release prerelease build
    → IsValid other
    → compare (render release prerelease build) other
      ≡ compare (render release prerelease none) other
compare_build release prerelease build other h v =
    let plain : IsGrammatical release prerelease none = record {
      release_part = h.release_part;
      prerelease_part = h.prerelease_part;
      build_part = tt;
    } in
    compare-eq-compare_parsed _ other (render-IsValid release prerelease build h) v
    ∙ sym (compare-eq-compare_parsed _ other (render-IsValid release prerelease none plain) v)

lists_refl : (xs : List go_bzlmod.Version.Identifier) → compare_identifier_lists xs xs ≡ eq
lists_refl xs = eq_of_flip _ (compare_identifier_lists-IsPreorder.swap xs xs)

length-cons_head : (c : ℕ) (parts : List Str) → 0 < length (cons_head c parts)
length-cons_head c [] = omega arith
length-cons_head c (p ∷ ps) = omega arith

length-split : (sep : ℕ) (s : Str) → 0 < length (split sep s)
unfolding split
length-split sep [] = omega arith
length-split sep (c ∷ s) = elim (Bool-cases (c == sep)) [
  | inl e ↦ rw e (omega arith)
  | inr e ↦ rw e (length-cons_head c (split sep s))
]

prerelease_first :
    (release p : Str)
    → 0 < length p
    → compare_parsed (parsed_of_groups release p) (parsed_of_groups release []) ≡ lt
unfolding compare_parsed parsed_of_groups
prerelease_first release [] h = absurd (omega arith)
prerelease_first release (c ∷ p) h = ground (
  arith,
  lists_refl (map parse_identifier (split b'.' release)),
  length-map parse_identifier (split b'.' (c ∷ p)),
  length-split b'.' (c ∷ p),
)

-- Of two versions with one release, the one with a prerelease is the lower, whatever the builds.
pub compare_prerelease :
    (release p : Str) (b c : Option Str)
    → IsGrammatical release (some p) b
    → IsGrammatical release none c
    → compare (render release (some p) b) (render release none c) ≡ lt
compare_prerelease release p b c h k =
    compare-eq-compare_parsed _ _ (render-IsValid release (some p) b h)
      (render-IsValid release none c k)
    ∙ prerelease_first release p h.prerelease_part.1

parsed-nonempty : (c : ℕ) (s : Str) (v : ParsedVersion) → parse (c ∷ s) ≡ ok v → v.is_empty ≡ false
unfolding parse parsed_of_groups
parsed-nonempty c s v h = elim (Option-cases (match_pattern (c ∷ s))) [
  | inl e ↦ absurd (ground arith)
  | inr (g, e) ↦ ground arith
]

abbrev empty_version : ParsedVersion
empty_version = record { release = []; prerelease = []; normalized = []; is_empty = true }

parse_empty : parse [] ≡ ok empty_version
unfolding parse
parse_empty = refl

-- The empty version is higher than every other version that parses.
pub compare_empty : (s : Str) → IsValid s → s ≢ [] → compare [] s ≡ gt
unfolding compare_parsed
compare_empty [] v h = absurd (h refl)
compare_empty (c ∷ s) v h =
    compare-eq-compare_parsed [] (c ∷ s) (record { parsed = empty_version; parses = parse_empty }) v
    ∙ ground (arith, parsed-nonempty c s v.parsed v.parses)
