-- ===== src/Diff/Correct.antt =====
-- What `DiffResolutions` of diff.go finds, in terms of the versions that each resolution gives to a
-- name.
use go_bzlmod.Prelude.{
  Ordering, lt, eq, gt, Str, Option, some, List, [], ◌++◌, ◌≡◌, refl, sym, ap, ◌∙◌, ◌≢◌, ◌↔◌, inl,
  inr, nat_eq, list_eq, Memᴰ, subst,
}
use go_bzlmod.Prelude.Memᴰ
use go_bzlmod.Prelude.Maps.{Map, lookup, lookup_of_mem, mem_of_lookup}
use go_bzlmod.Version.{compare}
use go_bzlmod.Diff.{
  ModuleChange, ModuleUpgrade, ResolutionDiff, ModuleToResolve, versions_of, no_changes,
  append_changes, change_of, removal_of, gather, sort_by_name, diff_resolutions,
}
use go_bzlmod.Diff.Sorting.{NamesAscend, mem-sort_by_name, sort_by_name-NamesAscend}
use go_bzlmod.Diff.Gather.{
  HasNone, Gives, versions_of-none, versions_of-some, versions_of-IsMap, Gathered, mem-gather,
}
use go_bzlmod.Diff.Changes.{
  IsAdded, IsChanged, changed_at, mem-change_of-added, mem-change_of-changed, removed_change_of,
  mem-removal_of, removal_of-others,
}

module _ (old_list new_list : Option (List ModuleToResolve)) where
  abbrev old : Map Str Str
  old = versions_of old_list

  abbrev new : Map Str Str
  new = versions_of new_list

  abbrev first : ResolutionDiff
  first = gather (change_of old) new no_changes

  abbrev found : ResolutionDiff
  found = gather (removal_of new) old first

  mem-first :
      {A : Type 0} (part : ResolutionDiff → List A)
      (part-append : (d e : ResolutionDiff) → part (append_changes d e) ≡ part d ++ part e)
      → part no_changes ≡ []
      → ((n o : Str) → part (removal_of new n o) ≡ [])
      → {x : A} → Memᴰ x (part found) ↔ Gathered part part-append (change_of old) new x
  mem-first part part-append e r {x} = (
    λ m. elim ((mem-gather part part-append (removal_of new) old first).0 m) [
      | inl a ↦ elim ((mem-gather part part-append (change_of old) new no_changes).0 a) [
        | inl b ↦ absurd (Memᴰ.not-nil (rw e at b))
        | inr b ↦ b
      ]
      | inr (n, o, _, b) ↦ absurd (Memᴰ.not-nil (rw (r n o) at b))
    ],
    λ g.
        (mem-gather part part-append (removal_of new) old first).1
          (inl ((mem-gather part part-append (change_of old) new no_changes).1 (inr g))),
  )

  mem-added : (c : ModuleChange) → Memᴰ c found.added ↔ IsAdded old new c
  mem-added c =
      let m =
        mem-first (λ d. d.added) (λ d e. refl) refl (λ n o. (removal_of-others new n o).0)
          {x = c} in
      (
        λ h.
            let (n, v, a, b) = m.0 h in
            let (p, q) = (mem-change_of-added old n v).0 b in
            let in_new = lookup_of_mem new (versions_of-IsMap new_list) a in
            (
              ap (λ t. lookup t old) (ap (λ t. t.name) q) ∙ p,
              ap (λ t. lookup t new) (ap (λ t. t.name) q)
                  ∙ in_new
                  ∙ ap some (sym (ap (λ t. t.version) q)),
            ),
        λ h. m.1 (
          c.name,
          c.version,
          mem_of_lookup c.name new h.1,
          (mem-change_of-added old c.name c.version).1 (h.0, refl),
        ),
      )

  mem-IsChanged :
      (s : Ordering) (u : ModuleUpgrade)
      → s ≢ eq
      → ((d e : ResolutionDiff)
          → changed_at s (append_changes d e) ≡ changed_at s d ++ changed_at s e)
      → changed_at s no_changes ≡ []
      → Memᴰ u (changed_at s found) ↔ IsChanged s old new u
  mem-IsChanged s u k s-append s_empty =
      let m =
        mem-first (changed_at s) s-append s_empty (λ n o. (removal_of-others new n o).1 s)
          {x = u} in
      (
        λ h.
            let (n, v, a, b) = m.0 h in
            let (p, q, r, t) = (mem-change_of-changed s old n v k).0 b in
            let in_new = lookup_of_mem new (versions_of-IsMap new_list) a in
            (
              ap (λ w. lookup w old) r ∙ p,
              ap (λ w. lookup w new) r ∙ in_new ∙ ap some (sym t),
              subst (λ w. compare w u.old_version ≡ s) (sym t) q,
            ),
        λ (a, b, c). m.1 (
          u.name,
          u.new_version,
          mem_of_lookup u.name new b,
          (mem-change_of-changed s old u.name u.new_version k).1 (a, c, refl, refl),
        ),
      )

  mem-removed : (c : ModuleChange) → Memᴰ c found.removed ↔ IsAdded new old c
  mem-removed c =
      let m = mem-gather (λ d. d.removed) (λ d e. refl) (removal_of new) old first {x = c} in
      (
        λ h. elim (m.0 h) [
          | inl a ↦
              elim ((mem-gather (λ d. d.removed) (λ d e. refl) (change_of old) new no_changes).0
                a) [
                  | inl b ↦ elim b [ ]
                  | inr (n, v, _, b) ↦ absurd (Memᴰ.not-nil (rw (removed_change_of old n v) at b))
                ]
          | inr (n, o, a, b) ↦
              let (p, q) = (mem-removal_of new n o).0 b in
              let in_old = lookup_of_mem old (versions_of-IsMap old_list) a in
              (
                ap (λ t. lookup t new) (ap (λ t. t.name) q) ∙ p,
                ap (λ t. lookup t old) (ap (λ t. t.name) q)
                    ∙ in_old
                    ∙ ap some (sym (ap (λ t. t.version) q)),
              )
        ],
        λ h. m.1 (
            inr (
              c.name,
              c.version,
              mem_of_lookup c.name old h.1,
              (mem-removal_of new c.name c.version).1 (h.0, refl),
            )),
      )

  -- A module that only one resolution has, at the version that this one gives to it.
  abbrev pub OnlyIn :
      Option (List ModuleToResolve) → Option (List ModuleToResolve) → ModuleChange → Type 0
  OnlyIn without with' c = HasNone c.name without × Gives c.name c.version with'

  -- A module that both resolutions have, where the new version compares as `r` with the old one.
  abbrev pub InBoth : Ordering → ModuleUpgrade → Type 0
  InBoth r u =
      Gives u.name u.old_version old_list
      × Gives u.name u.new_version new_list
      × (compare u.new_version u.old_version ≡ r)

  pub OnlyIn_lem :
      (without with' : Option (List ModuleToResolve)) (c : ModuleChange)
      → IsAdded (versions_of without) (versions_of with') c ↔ OnlyIn without with' c
  OnlyIn_lem without with' c =
      let n = versions_of-none c.name without in
      let g = versions_of-some c.name c.version with' in
      (λ (a, b). (n.0 a, g.0 b), λ (a, b). (n.1 a, g.1 b))

  pub InBoth_lem : (r : Ordering) (u : ModuleUpgrade) → IsChanged r old new u ↔ InBoth r u
  InBoth_lem r u =
      let a = versions_of-some u.name u.old_version old_list in
      let b = versions_of-some u.name u.new_version new_list in
      (λ (p, q, c). (a.0 p, b.0 q, c), λ (p, q, c). (a.1 p, b.1 q, c))

  -- What each list of a diff holds, and the order of its names.
  pub record IsDiff (d : ResolutionDiff) : Type 0 where
    pub added : (c : ModuleChange) → Memᴰ c d.added ↔ OnlyIn old_list new_list c
    pub removed : (c : ModuleChange) → Memᴰ c d.removed ↔ OnlyIn new_list old_list c
    pub upgraded : (u : ModuleUpgrade) → Memᴰ u d.upgraded ↔ InBoth gt u
    pub downgraded : (u : ModuleUpgrade) → Memᴰ u d.downgraded ↔ InBoth lt u
    pub added_ascend : NamesAscend (λ c. c.name) d.added
    pub removed_ascend : NamesAscend (λ c. c.name) d.removed
    pub upgraded_ascend : NamesAscend (λ u. u.name) d.upgraded
    pub downgraded_ascend : NamesAscend (λ u. u.name) d.downgraded

  through_sort :
      {A : Type 0} (name : A → Str) (xs : List A) {x : A} {P Q : Type 0}
      → Memᴰ x xs ↔ P
      → P ↔ Q
      → Memᴰ x (sort_by_name name xs) ↔ Q
  through_sort name xs h k = (
    λ m. k.0 (h.0 ((mem-sort_by_name name xs).0 m)),
    λ p. (mem-sort_by_name name xs).1 (h.1 (k.1 p)),
  )

  -- A resolution gives to a name the version of its last module of that name, if it has one.
  -- A module is added if only the new resolution has its name, and removed if only the old one has;
  -- it is upgraded, or downgraded, if both have the name and the new version compares as higher, or
  -- as lower, than the old one. Each of the four lists holds exactly these, in the order of names.
  pub diff_resolutions_correct : IsDiff (diff_resolutions old_list new_list)
  unfolding diff_resolutions
  diff_resolutions_correct = record {
    added =
        λ c. through_sort (λ t. t.name) found.added (mem-added c) (OnlyIn_lem old_list new_list c);
    removed = λ c.
        through_sort (λ t. t.name) found.removed (mem-removed c) (OnlyIn_lem new_list old_list c);
    upgraded = λ u.
        through_sort (λ t. t.name) found.upgraded (mem-IsChanged gt u (λ h. cc) (λ d e. refl) refl)
          (InBoth_lem gt u);
    downgraded = λ u.
        through_sort (λ t. t.name) found.downgraded
          (mem-IsChanged lt u (λ h. cc) (λ d e. refl) refl) (InBoth_lem lt u);
    added_ascend = sort_by_name-NamesAscend (λ t. t.name) found.added;
    removed_ascend = sort_by_name-NamesAscend (λ t. t.name) found.removed;
    upgraded_ascend = sort_by_name-NamesAscend (λ t. t.name) found.upgraded;
    downgraded_ascend = sort_by_name-NamesAscend (λ t. t.name) found.downgraded;
  }
