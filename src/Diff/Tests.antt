-- ===== src/Diff/Tests.antt =====
-- The diff of two small resolutions, and the theorems at it.
use go_bzlmod.Prelude.{
  Str, codes, Option, some, List, [], ◌∷◌, ◌≡◌, refl, split, span, nat_eq, list_eq,
}
use go_bzlmod.Version
use go_bzlmod.Version.{
  match_build, match_prerelease, match_pattern, parse_uint, parse_identifier, compare_identifiers,
  parsed_of_groups, parse, first_difference, compare_identifier_lists, compare_parsed,
  compare_results,
}
use go_bzlmod.Diff.{
  ResolutionDiff, ModuleToResolve, lookup_map, change_of, removal_of, gather, insert_by_name,
  sort_by_name, diff_resolutions,
}
use go_bzlmod.Diff.Correct.{IsDiff, diff_resolutions_correct}

abbrev entry : Str → Str → ModuleToResolve
entry name version = record { name = name; version = version }

abbrev old_list : Option (List ModuleToResolve)
old_list = some (
    entry (codes "c") (codes "2.0")
    ∷ entry (codes "b") (codes "1.0")
    ∷ entry (codes "a") (codes "1.9")
    ∷ [])

abbrev new_list : Option (List ModuleToResolve)
new_list = some (
    entry (codes "d") (codes "1.0")
    ∷ entry (codes "c") (codes "1.0")
    ∷ entry (codes "a") (codes "1.10")
    ∷ [])

abbrev expected : ResolutionDiff
expected = record {
  added = record { name = codes "d"; version = codes "1.0" } ∷ [];
  removed = record { name = codes "b"; version = codes "1.0" } ∷ [];
  upgraded =
      record { name = codes "a"; old_version = codes "1.9"; new_version = codes "1.10" } ∷ [];
  downgraded =
      record { name = codes "c"; old_version = codes "2.0"; new_version = codes "1.0" } ∷ [];
}

diff_of_both : diff_resolutions old_list new_list ≡ expected
unfolding Version.compare match_build match_prerelease match_pattern parse_uint parse_identifier
    compare_identifiers parsed_of_groups parse first_difference compare_identifier_lists
    compare_parsed compare_results split span lookup_map change_of removal_of gather insert_by_name
    sort_by_name diff_resolutions
diff_of_both = refl

diff_resolutions_correct_example : IsDiff old_list new_list (diff_resolutions old_list new_list)
diff_resolutions_correct_example = diff_resolutions_correct old_list new_list
