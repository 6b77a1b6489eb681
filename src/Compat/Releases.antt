-- ===== src/Compat/Releases.antt =====
-- `normalizeBazelVersion` of bazel_compat.go: the release of a Bazel version.
use go_bzlmod.Prelude.{
  ℕ, Bool-cases, Str, [], ◌∷◌, ◌++◌, All, ◌&&◌, All-append, ==_iff, ==_cases, nat_eq, list_eq, ◌≡◌,
  ◌≢◌, refl, sym, ap, subst, ◌⊎◌, inl, inr, arith,
}
use go_bzlmod.Compat.{is_int, before_suffix, normalize_bazel_version}
use go_bzlmod.Compat.Reading.{IsDigit, IsTriple, split-triple}

-- What may follow the release in a version.
abbrev pub IsSuffix : Str → Type 0
IsSuffix [] = Unit
IsSuffix (c ∷ s) = (c ≡ b'-') ⊎ (c ≡ b'+')

abbrev NoSign : ℕ → Type 0
NoSign c = (c ≢ b'-') × (c ≢ b'+')

before_suffix_empty : (rest : Str) → IsSuffix rest → before_suffix rest ≡ []
unfolding before_suffix
before_suffix_empty [] h = refl
before_suffix_empty (c ∷ s) h = ground (arith, ==_iff c b'-', ==_iff c b'+')

before_suffix-append :
    (cut rest : Str) → All NoSign cut → IsSuffix rest → before_suffix (cut ++ rest) ≡ cut
unfolding before_suffix
before_suffix-append [] rest h k = before_suffix_empty rest k
before_suffix-append (c ∷ cut) rest ((p, q), h) k = elim (==_cases c b'-') [
  | inl e ↦ absurd (p e)
  | inr (a, _) ↦ elim (==_cases c b'+') [
    | inl e ↦ absurd (q e)
    | inr (b, _) ↦ rw (a, b) (ap (λ x. c ∷ x) (before_suffix-append cut rest h k))
  ]
]

number-NoSign : (s : Str) → All IsDigit s → All NoSign s
number-NoSign [] h = tt
number-NoSign (c ∷ s) ((p, q), h) =
    (((λ e. omega (arith, e, p)), (λ e. omega (arith, e, p))), number-NoSign s h)

triple-NoSign : (v : Str) → IsTriple v → All NoSign v
triple-NoSign v t = subst (All NoSign) (sym t.text) (
    All-append NoSign t.a (b'.' ∷ (t.b ++ b'.' ∷ t.c)) (number-NoSign t.a t.a_number.1) (
      point,
      All-append NoSign t.b (b'.' ∷ t.c) (number-NoSign t.b t.b_number.1)
          (point, number-NoSign t.c t.c_number.1),
    ))
  where
    point : NoSign b'.'
    point = ((λ e. omega (arith, e)), (λ e. omega (arith, e)))

-- The release of a version, without what follows it.
pub normalize-release :
    (release suffix : Str)
    → IsTriple release
    → IsSuffix suffix
    → normalize_bazel_version (release ++ suffix) ≡ release
unfolding normalize_bazel_version
normalize-release release suffix t k =
    rw (before_suffix-append release suffix (triple-NoSign release t) k, split-triple release t)
      (elim (Bool-cases (is_int t.a && (is_int t.b && is_int t.c))) [
        | inl h ↦ rw h (sym t.text)
        | inr h ↦ rw h refl
      ])

pub triple-ne-nil : (release suffix : Str) → IsTriple release → release ++ suffix ≢ []
triple-ne-nil [] suffix t e = triple_not_empty t.a _ t.text
  where
    triple_not_empty : (a r : Str) → [] ≢ a ++ b'.' ∷ r
    triple_not_empty [] r z = cc
    triple_not_empty (d ∷ s) r z = cc
triple-ne-nil (c ∷ r) suffix t e = cc
