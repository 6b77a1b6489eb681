-- ===== src/Label/Parts.antt =====
-- The parts of a label that label/module.go reads are those that it was written from.
use go_bzlmod.Prelude.{
  true, false, Str, some, ok, [], ◌∷◌, ◌++◌, all, All, ==_cases, nat_eq, list_eq, ◌≡◌, ◌≢◌, refl,
  ap, inl, inr, arith,
}
use go_bzlmod.Label.{
  is_repo_char, match_repo_name, new_apparent_repo, put_first, cut_slashes, cut_colon,
  parse_in_repo, parse_apparent_label,
}

cut_colon-append :
    (pkg target : Str)
    → All (λ c. c ≢ b':') pkg
    → cut_colon (pkg ++ b':' ∷ target) ≡ some (pkg, target)
unfolding cut_colon
cut_colon-append [] target h = refl
cut_colon-append (c ∷ pkg) target h = elim (==_cases c b':') [
  | inl e ↦ absurd (h.0 e)
  | inr (q, _) ↦ rw (q, cut_colon) (ap (put_first c) (cut_colon-append pkg target h.1))
]

cut_slashes-append :
    (repo rest : Str)
    → All (λ c. c ≢ b'/') repo
    → cut_slashes (repo ++ b'/' ∷ b'/' ∷ rest) ≡ some (repo, rest)
unfolding cut_slashes
cut_slashes-append [] rest h = refl
cut_slashes-append (c ∷ repo) rest h = elim (==_cases c b'/') [
  | inl e ↦ absurd (h.0 e)
  | inr (q, _) ↦ rw (q, cut_slashes) (ap (put_first c) (cut_slashes-append repo rest h.1))
]

no_slash : (s : Str) → all is_repo_char s ≡ true → All (λ c. c ≢ b'/') s
no_slash [] h = tt
no_slash (c ∷ s) h = ((λ e. ground arith), no_slash s (ground arith))

name_no_slash : (repo : Str) → match_repo_name repo ≡ true → All (λ c. c ≢ b'/') repo
name_no_slash [] h = tt
name_no_slash (c ∷ s) h = ((λ e. ground arith), no_slash s (ground arith))

-- Reading `@repo//pkg:target` gives back its parts, for a valid name of a repository and a package
-- without a colon.
pub parse_apparent_label-parts :
    (repo pkg target : Str)
    → match_repo_name repo ≡ true
    → All (λ c. c ≢ b':') pkg
    → parse_apparent_label (b'@' ∷ (repo ++ b'/' ∷ b'/' ∷ (pkg ++ b':' ∷ target)))
      ≡ ok (record {
        repo = repo;
        pkg = pkg;
        target = target;
        raw = b'@' ∷ (repo ++ b'/' ∷ b'/' ∷ (pkg ++ b':' ∷ target));
      })
unfolding parse_apparent_label parse_in_repo new_apparent_repo
parse_apparent_label-parts [] pkg target h n = absurd (let z : false ≡ true = h in cc)
parse_apparent_label-parts (c ∷ repo) pkg target h n =
    rw
      (
        cut_slashes-append (c ∷ repo) (pkg ++ b':' ∷ target) (name_no_slash (c ∷ repo) h),
        parse_apparent_label,
        h,
        cut_colon-append pkg target n,
      )
      refl
