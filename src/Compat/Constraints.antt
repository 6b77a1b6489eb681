-- ===== src/Compat/Constraints.antt =====
-- The checks of bazel_compat.go and internal/compat/fields.go.
use go_bzlmod.Prelude.{
  true, false, not, ◌++◌, subst, Memᴰ, Bool-cases, Str, none, some, Option-cases, List, [], ◌∷◌,
  All, ◌==◌, ==_cases, nat_eq, list_eq, ◌≡◌, refl, sym, ap, ◌∙◌, ◌↔◌, inl, inr, arith,
}
use go_bzlmod.Compat.Reading.{IsTriple, Reads, Admits, satisfies_iff, parse_iff}
use go_bzlmod.Compat.Releases.{IsSuffix, normalize-release, triple-ne-nil}
use go_bzlmod.Prelude.Memᴰ
use go_bzlmod.Metadata.{has_value}
use go_bzlmod.Version
use go_bzlmod.Compat.{
  FieldRequirement, field_registry, find_requirement, supported_by, is_supported, check_requirement,
  check_field, is_lt, BazelCompatConstraint, parse_bazel_compat_constraint, check, Operator, fails,
  failed_constraints, checked, check_bazel_compatibility, invalid_constraints,
}

supported_by_lem :
    (rs : List FieldRequirement) (bazel_version name : Str)
    → supported_by rs bazel_version name
      ≡ not (has_value (check_requirement bazel_version name (find_requirement rs name)))
unfolding supported_by check_requirement find_requirement
supported_by_lem [] bazel_version name = refl
supported_by_lem (r ∷ rs) bazel_version name = elim (Bool-cases (r.name == name)) [
  | inl h ↦ elim (Bool-cases (is_lt (Version.compare bazel_version r.min_version))) [
    | inl l ↦ rw (h, find_requirement, l, check_requirement, supported_by) refl
    | inr l ↦ rw (h, find_requirement, l, check_requirement, supported_by) refl
  ]
  | inr h ↦ rw (h, find_requirement, supported_by) (supported_by_lem rs bazel_version name)
]

-- The two checks of a field agree: `CheckField` has no warning exactly where `IsSupported` says yes.
pub is_supported_lem :
    (bazel_version name : Str)
    → is_supported bazel_version name ≡ not (has_value (check_field bazel_version name))
unfolding is_supported check_field
is_supported_lem bazel_version name = elim (Bool-cases (bazel_version == [])) [
  | inl h ↦ rw (h, check_field) refl
  | inr h ↦ rw (h, check_field) (supported_by_lem field_registry bazel_version name)
]

-- A constraint that cannot be read is no obstacle.
abbrev ParsedAllows : Str → Str → Type 0
ParsedAllows bazel_version s =
    (c : BazelCompatConstraint)
    → parse_bazel_compat_constraint s ≡ some c
    → check c bazel_version ≡ true

fails-Allows :
    (bazel_version s : Str)
    → (fails bazel_version (parse_bazel_compat_constraint s) ≡ false) ↔ ParsedAllows bazel_version s
fails-Allows bazel_version s = elim (Option-cases (parse_bazel_compat_constraint s)) [
  | inl e ↦ rw e (λ h c p. absurd (let z : none ≡ some c = p in cc), λ h. refl)
  | inr (d, e) ↦ rw e (
    λ h c p.
        let q : some d ≡ some c = p in
        let r : d ≡ c = cc in
        let k : check d bazel_version ≡ true = ground arith in
        ap (λ x. check x bazel_version) (sym r) ∙ k,
    λ h. rw (h d refl) refl,
  )
]

failed_constraints-none :
    (bazel_version : Str) (constraints : List Str)
    → (failed_constraints bazel_version constraints ≡ [])
      ↔ All (ParsedAllows bazel_version) constraints
unfolding failed_constraints
failed_constraints-none bazel_version [] = (λ h. tt, λ h. refl)
failed_constraints-none bazel_version (s ∷ rest) =
    elim (Bool-cases (fails bazel_version (parse_bazel_compat_constraint s))) [
      | inl h ↦
          rw (h, failed_constraints)
            (
              (λ p. absurd cc),
              λ (a, _).
                  absurd (let z : true ≡ false = sym h ∙ (fails-Allows bazel_version s).1 a in cc),
            )
      | inr h ↦
          rw (h, failed_constraints)
            (
              λ p. (
                (fails-Allows bazel_version s).0 h,
                (failed_constraints-none bazel_version rest).0 p,
              ),
              λ (_, a). (failed_constraints-none bazel_version rest).1 a,
            )
    ]

checked-compatible :
    (failed invalid : List Str) → ((checked failed invalid).compatible ≡ true) ↔ (failed ≡ [])
checked-compatible [] invalid = (λ h. refl, λ h. refl)
checked-compatible (s ∷ rest) invalid =
    (λ h. absurd (let z : false ≡ true = h in cc), λ h. absurd cc)

invalid_constraints-mem :
    (constraints : List Str) (s : Str)
    → Memᴰ s (invalid_constraints constraints)
      ↔ (Memᴰ s constraints × (parse_bazel_compat_constraint s ≡ none))
unfolding invalid_constraints
invalid_constraints-mem [] s = (λ m. elim m [ ], λ (m, _). elim m [ ])
invalid_constraints-mem (c ∷ cs) s =
    let ih = invalid_constraints-mem cs s in
    elim (Option-cases (parse_bazel_compat_constraint c)) [
      | inl e ↦
          rw (e, invalid_constraints)
            (
              λ m. elim (Memᴰ.cases_cons m) [
                | inl p ↦ (Memᴰ.head p, ap parse_bazel_compat_constraint p ∙ e)
                | inr t ↦ let (n, h) = ih.0 t in (Memᴰ.tail n, h)
              ],
              λ (m, h). elim (Memᴰ.cases_cons m) [
                | inl p ↦ Memᴰ.head p
                | inr t ↦ Memᴰ.tail (ih.1 (t, h))
              ],
            )
      | inr (d, e) ↦
          rw (e, invalid_constraints)
            (
              λ m. let (n, h) = ih.0 m in (Memᴰ.tail n, h),
              λ (m, h). elim (Memᴰ.cases_cons m) [
                | inl p ↦
                    absurd
                      (let z : none ≡ some d = sym h ∙ ap parse_bazel_compat_constraint p ∙ e in cc)
                | inr t ↦ ih.1 (t, h)
              ],
            )
    ]

-- A text that is a constraint admits the version.
abbrev pub Allows : Str → Str → Type 0
Allows bazel_version s = (op : Operator) (v : Str) → Reads op v s → Admits op v bazel_version

ParsedAllows-Allows :
    (bazel_version s : Str) → ParsedAllows bazel_version s ↔ Allows bazel_version s
ParsedAllows-Allows bazel_version s = (
  λ h op v r.
      (satisfies_iff op v bazel_version).0
        (h (record { operator = op; version = v }) ((parse_iff op v s).1 r)),
  λ h c p.
      (satisfies_iff c.operator c.version bazel_version).1
        (h c.operator c.version ((parse_iff c.operator c.version s).0 p)),
)

All-Allows :
    (bazel_version : Str) (constraints : List Str)
    → All (ParsedAllows bazel_version) constraints ↔ All (Allows bazel_version) constraints
All-Allows bazel_version [] = (λ h. tt, λ h. tt)
All-Allows bazel_version (s ∷ rest) =
    let this = ParsedAllows-Allows bazel_version s in
    let ih = All-Allows bazel_version rest in
    (λ (p, q). (this.0 p, ih.0 q), λ (p, q). (this.1 p, ih.1 q))

not_read :
    (s : Str)
    → (parse_bazel_compat_constraint s ≡ none) ↔ ((op : Operator) (v : Str) → ¬ Reads op v s)
not_read s = (
  λ e op v r.
      (let z : none ≡ some (record { operator = op; version = v }) =
          sym e ∙ (parse_iff op v s).1 r in
        cc),
  λ h. elim (Option-cases (parse_bazel_compat_constraint s)) [
    | inl e ↦ e
    | inr (c, e) ↦ absurd (h c.operator c.version ((parse_iff c.operator c.version s).0 e))
  ],
)

-- For a Bazel version X.Y.Z of numbers, with or without a suffix from a - or + on, a list of
-- constraints is satisfied exactly if each text in it that is an operator (>=, <=, >, < or -) and a
-- version of three numbers admits X.Y.Z: X.Y.Z compares with that version as the operator says, and
-- as unequal for -. The texts that are reported as invalid are exactly the others.
pub check_bazel_compatibility_correct :
    (release suffix : Str) (constraints : List Str)
    → IsTriple release
    → IsSuffix suffix
    → (((check_bazel_compatibility (release ++ suffix) constraints).compatible ≡ true)
        ↔ All (Allows release) constraints)
      × ((s : Str)
          → Memᴰ s (check_bazel_compatibility (release ++ suffix) constraints).invalid_constraints
            ↔ (Memᴰ s constraints × ((op : Operator) (v : Str) → ¬ Reads op v s)))
unfolding check_bazel_compatibility
check_bazel_compatibility_correct release suffix constraints t k =
    elim (==_cases (release ++ suffix) []) [
      | inl e ↦ absurd (triple-ne-nil release suffix t e)
      | inr (q, _) ↦
          rw (q, check_bazel_compatibility, normalize-release release suffix t k)
            (
              both,
              λ s.
                  subst
                    (λ r.
                      Memᴰ s r
                      ↔ (Memᴰ s constraints × ((op : Operator) (v : Str) → ¬ Reads op v s)))
                    (sym (reported failed)) (invalid s),
            )
    ]
  where
    failed : List Str
    failed = failed_constraints release constraints

    reported :
        (fs : List Str)
        → (checked fs (invalid_constraints constraints)).invalid_constraints
          ≡ invalid_constraints constraints
    reported [] = refl
    reported (f ∷ fs) = refl

    invalid :
        (s : Str)
        → Memᴰ s (invalid_constraints constraints)
          ↔ (Memᴰ s constraints × ((op : Operator) (v : Str) → ¬ Reads op v s))
    invalid s =
        let m = invalid_constraints-mem constraints s in
        let n = not_read s in (λ i. let (a, b) = m.0 i in (a, n.0 b), λ (a, b). m.1 (a, n.1 b))

    both :
        ((checked failed (invalid_constraints constraints)).compatible ≡ true)
        ↔ All (Allows release) constraints
    both = (
      λ h. (All-Allows release constraints).0 (
          (failed_constraints-none release constraints).0
            ((checked-compatible failed (invalid_constraints constraints)).0 h)),
      λ h.
          (checked-compatible failed (invalid_constraints constraints)).1 (
            (failed_constraints-none release constraints).1 ((All-Allows release constraints).1 h)),
    )
