-- ===== src/Diff/Changes.antt =====
-- What one name contributes to the diff of diff.go.
use go_bzlmod.Prelude.{
  Ordering, lt, eq, gt, Str, none, some, Option-cases, List, [], ◌∷◌, ◌≡◌, refl, sym, ap, ◌∙◌, ◌≢◌,
  ◌↔◌, inl, inr, ==_cases, ==_iff, nat_eq, list_eq, Memᴰ, subst,
}
use go_bzlmod.Prelude.Memᴰ
use go_bzlmod.Prelude.Maps.{Map, lookup}
use go_bzlmod.Version.{compare}
use go_bzlmod.Version.Order.{compare_refl}
use go_bzlmod.Diff.{ModuleChange, ModuleUpgrade, ResolutionDiff, no_changes, change_of, removal_of}

-- A name that only the new versions have.
abbrev pub IsAdded : Map Str Str → Map Str Str → ModuleChange → Type 0
IsAdded old new c = (lookup c.name old ≡ none) × (lookup c.name new ≡ some c.version)

-- A name with two versions, where the new one compares as `r` with the old one.
abbrev pub IsChanged : Ordering → Map Str Str → Map Str Str → ModuleUpgrade → Type 0
IsChanged r old new u =
    (lookup u.name old ≡ some u.old_version)
    × (lookup u.name new ≡ some u.new_version)
    × (compare u.new_version u.old_version ≡ r)

abbrev upgrade_of : Str → Str → Str → ModuleUpgrade
upgrade_of n o v = record { name = n; old_version = o; new_version = v }

abbrev change_for : Ordering → Str → Str → Str → ResolutionDiff
change_for gt n o v = record {
  added = [];
  removed = [];
  upgraded = upgrade_of n o v ∷ [];
  downgraded = [];
}
change_for lt n o v = record {
  added = [];
  removed = [];
  upgraded = [];
  downgraded = upgrade_of n o v ∷ [];
}
change_for eq n o v = no_changes

pub change_of-some :
    (old : Map Str Str) (n v o : Str)
    → lookup n old ≡ some o
    → change_of old n v ≡ change_for (compare v o) n o v
unfolding change_of
change_of-some old n v o h = elim (==_cases o v) [
  | inl p ↦
      let q : compare v o ≡ eq = subst (λ w. compare v w ≡ eq) (sym p) (compare_refl v) in
      rw (h, change_of, (==_iff o v).1 p, q)
  | inr (q, _) ↦ rw (h, change_of, q) (same_cases (compare v o))
]
  where
    same_cases :
        (r : Ordering)
        → elim r [ gt ↦ change_for gt n o v | lt ↦ change_for lt n o v | eq ↦ no_changes ]
          ≡ change_for r n o v
    same_cases gt = refl
    same_cases lt = refl
    same_cases eq = refl

change_of-none :
    (old : Map Str Str) (n v : Str)
    → lookup n old ≡ none
    → change_of old n v ≡ record {
      added = record { name = n; version = v } ∷ [];
      removed = [];
      upgraded = [];
      downgraded = [];
    }
unfolding change_of
change_of-none old n v h = rw (h, change_of)

pub mem-change_of-added :
    (old : Map Str Str) (n v : Str) {c : ModuleChange}
    → Memᴰ c (change_of old n v).added
      ↔ ((lookup n old ≡ none) × (c ≡ record { name = n; version = v }))
mem-change_of-added old n v {c} = elim (Option-cases (lookup n old)) [
  | inl h ↦ rw (change_of-none old n v h) (λ m. (h, Memᴰ.eq_of_singleton m), λ p. Memᴰ.head p.1)
  | inr (o, h) ↦ rw (change_of-some old n v o h) (
    λ m. absurd (never (compare v o) o m),
    λ p. absurd (let q : none ≡ some o = sym p.0 ∙ h in cc),
  )
]
  where
    never : (r : Ordering) (o : Str) → ¬ Memᴰ c (change_for r n o v).added
    never gt o m = elim m [ ]
    never lt o m = elim m [ ]
    never eq o m = elim m [ ]

abbrev pub changed_at : Ordering → ResolutionDiff → List ModuleUpgrade
changed_at gt d = d.upgraded
changed_at lt d = d.downgraded
changed_at eq d = []

mem-change_for :
    (s r : Ordering) (n o v : Str) {u : ModuleUpgrade}
    → s ≢ eq
    → Memᴰ u (changed_at s (change_for r n o v)) ↔ ((r ≡ s) × (u ≡ upgrade_of n o v))
mem-change_for eq r n o v h = absurd (h refl)
mem-change_for gt gt n o v h = (λ m. (refl, Memᴰ.eq_of_singleton m), λ p. Memᴰ.head p.1)
mem-change_for lt lt n o v h = (λ m. (refl, Memᴰ.eq_of_singleton m), λ p. Memᴰ.head p.1)
mem-change_for gt lt n o v h = (λ m. elim m [ ], λ p. absurd (let q = p.0 in cc))
mem-change_for lt gt n o v h = (λ m. elim m [ ], λ p. absurd (let q = p.0 in cc))
mem-change_for gt eq n o v h = (λ m. elim m [ ], λ p. absurd (let q = p.0 in cc))
mem-change_for lt eq n o v h = (λ m. elim m [ ], λ p. absurd (let q = p.0 in cc))

pub mem-change_of-changed :
    (s : Ordering) (old : Map Str Str) (n v : Str) {u : ModuleUpgrade}
    → s ≢ eq
    → Memᴰ u (changed_at s (change_of old n v)) ↔ (
        (lookup n old ≡ some u.old_version)
        × (compare v u.old_version ≡ s)
        × (u.name ≡ n)
        × (u.new_version ≡ v))
mem-change_of-changed s old n v {u} k = elim (Option-cases (lookup n old)) [
  | inl h ↦ rw (change_of-none old n v h) (
    λ m. absurd (none_changed s m),
    λ p. absurd (let q : none ≡ some u.old_version = sym h ∙ p.0 in cc),
  )
  | inr (o, h) ↦ rw (change_of-some old n v o h) (
    λ m.
        let (p, q) = (mem-change_for s (compare v o) n o v k).0 m in
        let e : o ≡ u.old_version = sym (ap (λ t. t.old_version) q) in
        (
          h ∙ ap some e,
          subst (λ w. compare v w ≡ s) e p,
          ap (λ t. t.name) q,
          ap (λ t. t.new_version) q,
        ),
    λ (a, b, c, d).
        let e : u.old_version ≡ o = some_inj (sym a ∙ h) in
        (mem-change_for s (compare v o) n o v k).1
          (subst (λ w. compare v w ≡ s) e b, upgrade_eq u n o v c e d),
  )
]
  where
    none_changed :
        (s : Ordering)
        → ¬ Memᴰ u (
            changed_at s (record {
              added = record { name = n; version = v } ∷ [];
              removed = [];
              upgraded = [];
              downgraded = [];
            }))
    none_changed gt m = elim m [ ]
    none_changed lt m = elim m [ ]
    none_changed eq m = elim m [ ]

    some_inj : {a b : Str} → some a ≡ some b → a ≡ b
    some_inj p = cc

    upgrade_eq :
        (u : ModuleUpgrade) (n o v : Str)
        → u.name ≡ n
        → u.old_version ≡ o
        → u.new_version ≡ v
        → u ≡ upgrade_of n o v
    upgrade_eq u n o v p q r = cc

pub removed_change_of : (old : Map Str Str) (n v : Str) → (change_of old n v).removed ≡ []
removed_change_of old n v = elim (Option-cases (lookup n old)) [
  | inl h ↦ rw (change_of-none old n v h)
  | inr (o, h) ↦ rw (change_of-some old n v o h) (empty o (compare v o))
]
  where
    empty : (o : Str) (r : Ordering) → (change_for r n o v).removed ≡ []
    empty o gt = refl
    empty o lt = refl
    empty o eq = refl

removal_of-none :
    (new : Map Str Str) (n o : Str)
    → lookup n new ≡ none
    → removal_of new n o ≡ record {
      added = [];
      removed = record { name = n; version = o } ∷ [];
      upgraded = [];
      downgraded = [];
    }
unfolding removal_of
removal_of-none new n o h = rw (h, removal_of)

removal_of-some :
    (new : Map Str Str) (n o v : Str) → lookup n new ≡ some v → removal_of new n o ≡ no_changes
unfolding removal_of
removal_of-some new n o v h = rw (h, removal_of)

pub mem-removal_of :
    (new : Map Str Str) (n o : Str) {c : ModuleChange}
    → Memᴰ c (removal_of new n o).removed
      ↔ ((lookup n new ≡ none) × (c ≡ record { name = n; version = o }))
mem-removal_of new n o {c} = elim (Option-cases (lookup n new)) [
  | inl h ↦ rw (removal_of-none new n o h) (λ m. (h, Memᴰ.eq_of_singleton m), λ p. Memᴰ.head p.1)
  | inr (v, h) ↦
      rw (removal_of-some new n o v h)
        (λ m. elim m [ ], λ p. absurd (let q : none ≡ some v = sym p.0 ∙ h in cc))
]

pub removal_of-others :
    (new : Map Str Str) (n o : Str)
    → ((removal_of new n o).added ≡ []) × ((s : Ordering) → changed_at s (removal_of new n o) ≡ [])
removal_of-others new n o = elim (Option-cases (lookup n new)) [
  | inl h ↦ rw (removal_of-none new n o h) (refl, empty)
  | inr (v, h) ↦ rw (removal_of-some new n o v h) (refl, empty_too)
]
  where
    empty :
        (s : Ordering)
        → changed_at s (record {
          added = [];
          removed = record { name = n; version = o } ∷ [];
          upgraded = [];
          downgraded = [];
        })
          ≡ []
    empty gt = refl
    empty lt = refl
    empty eq = refl

    empty_too : (s : Ordering) → changed_at s no_changes ≡ []
    empty_too gt = refl
    empty_too lt = refl
    empty_too eq = refl
