-- ===== src/Version/Tests.antt =====
-- Comparisons at concrete versions, and the theorems at them.
use mathlib.Core.List.{Perm}
use go_bzlmod.Prelude.{
  Str, codes, strings_compare, Ordering, lt, eq, gt, Option, none, some, List, [], ◌∷◌, ◌++◌, ◌≡◌,
  ◌≢◌, ◌↔◌, ◌⊎◌, refl, split, span, arith, ◌<◌,
}
use go_bzlmod.Prelude.Orders.{Chain, flip}
use go_bzlmod.Version.{
  match_build, match_prerelease, match_pattern, parse_uint, parse_identifier, compare_identifiers,
  parsed_of_groups, parse, first_difference, compare_identifier_lists, compare_parsed,
  compare_results, compare, insert_sorted, sort, max,
}
use go_bzlmod.Version.Order.{IsValid, compare-swap_args, compare-Chain}
use go_bzlmod.Version.Pattern.{IsGrammatical, render, group, match_pattern_iff}
use go_bzlmod.Version.Sorting.{IsSorted, sort_correct}
use go_bzlmod.Version.Cycle.{compare_cycle}

-- Opens all that a comparison computes with.
opened : Unit {0}
unfolding compare match_build match_prerelease match_pattern parse_uint parse_identifier
    compare_identifiers parsed_of_groups parse first_difference compare_identifier_lists
    compare_parsed compare_results insert_sorted sort max split span
opened = tt

numbers_by_value : compare (codes "1.2.3") (codes "1.10") ≡ lt
unfolding opened
numbers_by_value = refl

numbers_before_texts : compare (codes "1.2") (codes "1.2a") ≡ lt
unfolding opened
numbers_before_texts = refl

prerelease_below : compare (codes "1.2.3-rc1") (codes "1.2.3+build") ≡ lt
unfolding opened
prerelease_below = refl

not_a_version : compare (codes "1.10") (codes "1.5_") ≡ lt
unfolding opened
not_a_version = refl

-- A number of 64 bits or more is no number.
too_large :
    (parse_identifier (codes "18446744073709551616")).is_digits_only ≡ go_bzlmod.Prelude.false
unfolding opened
too_large = refl

valid_1_9 : IsValid (codes "1.9")
unfolding opened
valid_1_9 = record { parsed = _; parses = refl }

valid_1_10 : IsValid (codes "1.10")
unfolding opened
valid_1_10 = record { parsed = _; parses = refl }

valid_2_0 : IsValid (codes "2.0")
unfolding opened
valid_2_0 = record { parsed = _; parses = refl }

compare-Chain_example :
    Chain
      (compare (codes "1.9") (codes "1.10"))
      (compare (codes "1.10") (codes "2.0"))
      (compare (codes "1.9") (codes "2.0"))
compare-Chain_example =
    compare-Chain (codes "1.9") (codes "1.10") (codes "2.0") valid_1_9 valid_1_10 valid_2_0

compare-swap_args_example :
    compare (codes "1.10") (codes "1.9") ≡ flip (compare (codes "1.9") (codes "1.10"))
compare-swap_args_example = compare-swap_args (codes "1.9") (codes "1.10")

match_pattern_iff_example :
    (match_pattern (codes "1.0-rc.1+b7") ≡ some (codes "1.0", codes "rc.1")) ↔ (
      (prerelease : Option Str) × (build : Option Str) × IsGrammatical
        (codes "1.0")
        prerelease
        build
      × (codes "1.0-rc.1+b7" ≡ render (codes "1.0") prerelease build)
      × (group prerelease ≡ codes "rc.1"))
match_pattern_iff_example = match_pattern_iff (codes "1.0-rc.1+b7") (codes "1.0") (codes "rc.1")

abbrev grammatical_build : IsGrammatical (codes "1.0") none (some (codes "b7"))
grammatical_build = record {
  release_part = (refl, omega arith);
  prerelease_part = tt;
  build_part = (refl, omega arith);
}

abbrev three : List Str
three = codes "2.0" ∷ codes "1.10" ∷ codes "1.9" ∷ []

sort_correct_example : Perm (sort three) three × IsSorted (sort three)
sort_correct_example = sort_correct three (valid_2_0, (valid_1_10, (valid_1_9, tt)))

numbers_differ : compare (codes "1.9") (codes "1.10") ≡ lt
unfolding opened
numbers_differ = refl

compare_cycle_example : (c : Str) × (compare (codes "1.10") c ≡ lt) × (compare c (codes "1.9") ≡ lt)
compare_cycle_example = compare_cycle (codes "1.9") (codes "1.10") valid_1_9 numbers_differ refl
