-- ===== src/Compat/Tests.antt =====
-- Constraints on the Bazel version, and the theorem at them.
use go_bzlmod.Prelude.{
  true, Str, codes, ◌++◌, Memᴰ, inl, List, [], ◌∷◌, All, split, nat_eq, list_eq, ◌≡◌, refl, ◌↔◌,
}
use go_bzlmod.Compat.{
  is_digits, Operator, check_bazel_compatibility, normalize_bazel_version, before_suffix,
}
use go_bzlmod.Compat.Reading.{IsNumber, IsTriple, Reads, is_digits_iff}
use go_bzlmod.Compat.Constraints.{Allows, check_bazel_compatibility_correct}

abbrev constraints : List Str
constraints = codes ">=7.0.0" ∷ codes "-7.1.0" ∷ codes "=>8" ∷ []

normalized : normalize_bazel_version (codes "7.0.0-pre.2023") ≡ codes "7.0.0"
unfolding normalize_bazel_version before_suffix split
normalized = refl

is_number : (s : Str) → is_digits s ≡ true → IsNumber s
is_number s h = (is_digits_iff s).0 h

bazel_7_1_0 : IsTriple (codes "7.1.0")
bazel_7_1_0 = record {
  a = codes "7";
  b = codes "1";
  c = codes "0";
  text = refl;
  a_number = is_number (codes "7") refl;
  b_number = is_number (codes "1") refl;
  c_number = is_number (codes "0") refl;
}

check_bazel_compatibility_correct_example :
    (((check_bazel_compatibility (codes "7.1.0" ++ codes "-rc1") constraints).compatible ≡ true)
      ↔ All (Allows (codes "7.1.0")) constraints)
    × ((s : Str)
        → Memᴰ s
            (check_bazel_compatibility
              (codes "7.1.0" ++ codes "-rc1")
              constraints).invalid_constraints
          ↔ (Memᴰ s constraints × ((op : Operator) (v : Str) → ¬ Reads op v s)))
check_bazel_compatibility_correct_example =
    check_bazel_compatibility_correct (codes "7.1.0") (codes "-rc1") constraints bazel_7_1_0
      (inl refl)
