-- ===== src/Diff/Empty.antt =====
-- `IsEmpty` and `TotalChanges` of diff.go on the diff of two resolutions.
use go_bzlmod.Prelude.{
  Ordering, lt, eq, gt, true, Str, Option, none, some, List, [], ◌∷◌, List-cases, ◌≡◌, refl, sym,
  subst, ◌∙◌, ◌↔◌, ◌⊎◌, inl, inr, Memᴰ, arith, nat_eq, list_eq,
}
use go_bzlmod.Prelude.Memᴰ
use go_bzlmod.Prelude.Maps.{Map, lookup}
use go_bzlmod.Version.{compare}
use go_bzlmod.Diff.{
  ResolutionDiff, ModuleToResolve, versions_of, no_elements, is_empty, total_changes,
  diff_resolutions,
}
use go_bzlmod.Diff.Correct.{IsDiff, OnlyIn_lem, InBoth_lem, diff_resolutions_correct}

empty_of : {A : Type 0} (xs : List A) → no_elements xs ≡ true → xs ≡ []
empty_of [] h = refl
empty_of (x ∷ xs) h = cc

of_no_member : {A : Type 0} (xs : List A) → ((x : A) → ¬ Memᴰ x xs) → no_elements xs ≡ true
of_no_member [] h = refl
of_no_member (x ∷ xs) h = absurd (h x (Memᴰ.head refl))

-- Neither resolution has the name, or both have it, with versions that compare equal.
abbrev pub Agrees : Option Str → Option Str → Type 0
Agrees none none = Unit
Agrees (some o) (some n) = compare n o ≡ eq
Agrees _ _ = ⊥

Ordering-cases : (r : Ordering) → (r ≡ lt) ⊎ (r ≡ eq) ⊎ (r ≡ gt)
Ordering-cases lt = inl refl
Ordering-cases eq = inr (inl refl)
Ordering-cases gt = inr (inr refl)

module _ (old_list new_list : Option (List ModuleToResolve)) where
  abbrev old : Map Str Str
  old = versions_of old_list

  abbrev new : Map Str Str
  new = versions_of new_list

  record AllEmpty (d : ResolutionDiff) : Type 0 where
    no_added : no_elements d.added ≡ true
    no_removed : no_elements d.removed ≡ true
    no_upgraded : no_elements d.upgraded ≡ true
    no_downgraded : no_elements d.downgraded ≡ true

  Agrees-of_empty :
      (d : ResolutionDiff)
      → IsDiff old_list new_list d
      → AllEmpty d
      → (name : Str) (o n : Option Str) → lookup name old ≡ o
      → lookup name new ≡ n
      → Agrees o n
  Agrees-of_empty d c e name none none p q = tt
  Agrees-of_empty d c e name none (some v) p q = absurd (
      Memᴰ.not-nil (
        subst (Memᴰ _) (empty_of d.added e.no_added) (
          (c.added (record { name = name; version = v })).1 (
            (OnlyIn_lem old_list new_list old_list new_list (record { name = name; version = v })).0
              (p, q)))))
  Agrees-of_empty d c e name (some v) none p q = absurd (
      Memᴰ.not-nil (
        subst (Memᴰ _) (empty_of d.removed e.no_removed) (
          (c.removed (record { name = name; version = v })).1 (
            (OnlyIn_lem old_list new_list new_list old_list (record { name = name; version = v })).0
              (q, p)))))
  Agrees-of_empty d c e name (some o) (some n) p q = elim (Ordering-cases (compare n o)) [
    | inl l ↦ absurd (
        Memᴰ.not-nil (
          subst (Memᴰ _) (empty_of d.downgraded e.no_downgraded) (
            (c.downgraded (record { name = name; old_version = o; new_version = n })).1 (
              (InBoth_lem old_list new_list lt
                  (record { name = name; old_version = o; new_version = n })).0
                (p, q, l)))))
    | inr (inl h) ↦ h
    | inr (inr g) ↦ absurd (
        Memᴰ.not-nil (
          subst (Memᴰ _) (empty_of d.upgraded e.no_upgraded) (
            (c.upgraded (record { name = name; old_version = o; new_version = n })).1 (
              (InBoth_lem old_list new_list gt
                  (record { name = name; old_version = o; new_version = n })).0
                (p, q, g)))))
  ]

  abbrev AllAgree : Type 0
  AllAgree = (name : Str) → Agrees (lookup name old) (lookup name new)

  not_added : AllAgree → (name v : Str) → lookup name old ≡ none → lookup name new ≡ some v → ⊥
  not_added h name v p q = rw (p, q) at (h name)

  not_removed : AllAgree → (name v : Str) → lookup name new ≡ none → lookup name old ≡ some v → ⊥
  not_removed h name v p q = rw (p, q) at (h name)

  not_changed :
      AllAgree
      → (r : Ordering) (name o n : Str) → lookup name old ≡ some o
      → lookup name new ≡ some n
      → compare n o ≡ r
      → r ≡ eq
  not_changed h r name o n p q k = let a : compare n o ≡ eq = rw (p, q) at (h name) in sym k ∙ a

  -- The diff is empty exactly if every name is in both resolutions or in neither, with versions that
  -- compare equal.
  pub is_empty-diff_resolutions :
      (is_empty (diff_resolutions old_list new_list) ≡ true)
      ↔ ((name : Str) → Agrees (lookup name old) (lookup name new))
  unfolding is_empty
  is_empty-diff_resolutions =
      let d = diff_resolutions old_list new_list in
      let c = diff_resolutions_correct old_list new_list in
      (
        λ h name.
            Agrees-of_empty d c
              (record {
                no_added = ground arith;
                no_removed = ground arith;
                no_upgraded = ground arith;
                no_downgraded = ground arith;
              })
              name (lookup name old) (lookup name new) refl refl,
        λ h.
            let e₁ = of_no_member d.added (λ x m.
              let (p, q) = (OnlyIn_lem old_list new_list old_list new_list x).1 ((c.added x).0 m) in
              not_added h x.name x.version p q) in
            let e₂ = of_no_member d.removed (λ x m.
              let (p, q) =
                (OnlyIn_lem old_list new_list new_list old_list x).1 ((c.removed x).0 m) in
              not_removed h x.name x.version p q) in
            let e₃ = of_no_member d.upgraded (λ x m.
              let (p, q, k) = (InBoth_lem old_list new_list gt x).1 ((c.upgraded x).0 m) in
              let z : gt ≡ eq = not_changed h gt x.name x.old_version x.new_version p q k in cc) in
            let e₄ = of_no_member d.downgraded (λ x m.
              let (p, q, k) = (InBoth_lem old_list new_list lt x).1 ((c.downgraded x).0 m) in
              let z : lt ≡ eq = not_changed h lt x.name x.old_version x.new_version p q k in cc) in
            rw (e₁, e₂, e₃, e₄) refl,
      )

-- A diff has no changes in total exactly if it is empty.
pub total_changes-is_empty : (d : ResolutionDiff) → (total_changes d ≡ 0) ↔ (is_empty d ≡ true)
unfolding total_changes is_empty
total_changes-is_empty d = elim (List-cases d.added) [
  | inr (x, xs, e) ↦ rw (e, total_changes, is_empty) (λ h. absurd (omega (arith, h)), λ h. cc)
  | inl e₁ ↦ elim (List-cases d.removed) [
    | inr (x, xs, e) ↦ rw (e₁, e, total_changes, is_empty) (λ h. absurd (omega (arith, h)), λ h. cc)
    | inl e₂ ↦ elim (List-cases d.upgraded) [
      | inr (x, xs, e) ↦
          rw (e₁, e₂, e, total_changes, is_empty) (λ h. absurd (omega (arith, h)), λ h. cc)
      | inl e₃ ↦ elim (List-cases d.downgraded) [
        | inr (x, xs, e) ↦
            rw (e₁, e₂, e₃, e, total_changes, is_empty) (λ h. absurd (omega (arith, h)), λ h. cc)
        | inl e₄ ↦ rw (e₁, e₂, e₃, e₄, total_changes, is_empty) (λ h. refl, λ h. refl)
      ]
    ]
  ]
]
