-- ===== src/Selection/Groups/Highest.antt =====
-- Step 3 of `Run` in selection/selection.go selects the highest version of every group.
use go_bzlmod.Prelude.{
  gt, Str, Option, none, some, [], ◌∷◌, All, ◌≡◌, refl, sym, ◌∙◌, ap, subst, inl, inr, ◌⊎◌, arith,
  Memᴰ, ==_iff, ==_refl, ==_cases,
}
use mathlib.Core.List.Memᴰ
use go_bzlmod.Prelude.Maps.{Map, lookup, lookup-insert}
use go_bzlmod.Version
use go_bzlmod.Version.Order.{IsValid, compare_refl, compare-swap_args}
use go_bzlmod.Version.Sorting.{Le, Le_trans}
use go_bzlmod.Selection.Types.{ModuleKey, key_eq, Module, SelectionGroup, group_eq}
use go_bzlmod.Selection.Groups.{
  AllowedVersionSets, SelectionGroups, SelectedVersions, compute_selection_group, selection_groups,
  select_version, selected_versions,
}

-- `v` is the version of some key of the group.
abbrev pub Occurs : SelectionGroups → SelectionGroup → Str → Type 0
Occurs groups g v = (k : ModuleKey) × Memᴰ (k, g) groups × (k.version ≡ v)

-- The version selected for a group is that of one of its modules, and no module of the group has a
-- higher one.
pub record IsHighest (groups : SelectionGroups) (selected : SelectedVersions) : Type 0 where
  pub occurs : (g : SelectionGroup) (v : Str) → lookup g selected ≡ some v → Occurs groups g v
  pub covers :
      (k : ModuleKey) (g : SelectionGroup)
      → Memᴰ (k, g) groups
      → (v : Str) × (lookup g selected ≡ some v) × Le k.version v

abbrev pub AllValid : SelectionGroups → Type 0
AllValid groups = All (λ entry. IsValid entry.0.version) groups

abbrev SelectedValid : SelectedVersions → Type 0
SelectedValid selected = (g : SelectionGroup) (v : Str) → lookup g selected ≡ some v → IsValid v

abbrev better : Str → Option Str → Str
better v none = v
better v (some e) = elim (Version.compare v e) [ gt ↦ v | _ ↦ e ]

module _ (k : ModuleKey) (g : SelectionGroup) (selected : SelectedVersions) where
  select_self : lookup g (select_version k g selected) ≡ some (better k.version (lookup g selected))
  unfolding select_version
  select_self = ground (arith, lookup-insert g g k.version selected, ==_refl g)

  -- What is selected elsewhere stays.
  select_other :
      (h : SelectionGroup) → ¬ (g ≡ h) → lookup h (select_version k g selected) ≡ lookup h selected
  unfolding select_version
  select_other h ne = ground (arith, lookup-insert g h k.version selected, ==_iff g h)

-- The selection kept so far, and the version `v` of one more module of the group.
better_is : (v : Str) (o : Option Str) → (better v o ≡ v) ⊎ (o ≡ some (better v o))
better_is v none = inl refl
better_is v (some e) = ground arith

better_above : (v : Str) (o : Option Str) → Le v (better v o)
better_above v none = ground (arith, compare_refl v)
better_above v (some e) = ground (arith, compare_refl v)

better_above_old : (v e : Str) → Le e (better v (some e))
better_above_old v e = ground (arith, compare_refl e, compare-swap_args e v)

module _ (k : ModuleKey) (g : SelectionGroup) (selected : SelectedVersions)
    (valid : IsValid k.version) (selected_valid : SelectedValid selected) where
  SelectedValid-select : SelectedValid (select_version k g selected)
  SelectedValid-select h v e = elim (==_cases g h) [
    | inl p ↦
        let q : some (better k.version (lookup g selected)) ≡ some v =
          sym (select_self k g selected)
          ∙ (subst (λ x. lookup x (select_version k g selected) ≡ some v) (sym p) e) in
        elim (better_is k.version (lookup g selected)) [
          | inl new ↦ let r : k.version ≡ v = cc (new, q) in subst IsValid r valid
          | inr old ↦ selected_valid g v (old ∙ q)
        ]
    | inr (_, ne) ↦ selected_valid h v (sym (select_other k g selected h ne) ∙ e)
  ]

  -- A round only raises what is selected.
  select_raises :
      (h : SelectionGroup) (v : Str)
      → lookup h selected ≡ some v
      → (w : Str) × (lookup h (select_version k g selected) ≡ some w) × Le v w
  select_raises h v e = elim (==_cases g h) [
    | inl p ↦ (
      better k.version (some v),
      subst (λ x. lookup x (select_version k g selected) ≡ some (better k.version (some v))) p
          (select_self k g selected
            ∙ ap (λ o. some (better k.version o))
                (subst (λ x. lookup x selected ≡ some v) (sym p) e)),
      better_above_old k.version v,
    )
    | inr (_, ne) ↦ (v, select_other k g selected h ne ∙ e, ground (arith, compare_refl v))
  ]

-- What a round selects was selected before, or is the version of its module.
select-Occurs :
    (k : ModuleKey) (g : SelectionGroup) (groups : SelectionGroups) (selected : SelectedVersions)
    (h : SelectionGroup) (v : Str)
    → lookup h (select_version k g selected) ≡ some v
    → (lookup h selected ≡ some v) ⊎ Occurs ((k, g) ∷ groups) h v
select-Occurs k g groups selected h v e = elim (==_cases g h) [
  | inr (_, ne) ↦ inl (sym (select_other k g selected h ne) ∙ e)
  | inl p ↦
      let q : lookup g (select_version k g selected) ≡ some v =
        subst (λ x. lookup x (select_version k g selected) ≡ some v) (sym p) e in
      let r : some (better k.version (lookup g selected)) ≡ some v =
        sym (select_self k g selected) ∙ q in
      elim (better_is k.version (lookup g selected)) [
        | inl new ↦ inr (k, Memᴰ.head (ap (λ x. (k, x)) (sym p)), cc (new, r))
        | inr old ↦ inl (subst (λ x. lookup x selected ≡ some v) p (old ∙ r))
      ]
]

-- From a selection `selected`, the loop over `groups` raises every entry and covers every module.
record Extends (groups : SelectionGroups) (selected : SelectedVersions) : Type 0 where
  raises :
      (g : SelectionGroup) (v : Str)
      → lookup g selected ≡ some v
      → (w : Str) × (lookup g (selected_versions groups selected) ≡ some w) × Le v w × IsValid w
  covers :
      (k : ModuleKey) (g : SelectionGroup)
      → Memᴰ (k, g) groups
      → (w : Str) × (lookup g (selected_versions groups selected) ≡ some w) × Le k.version w
  occurs :
      (g : SelectionGroup) (v : Str)
      → lookup g (selected_versions groups selected) ≡ some v
      → (lookup g selected ≡ some v) ⊎ Occurs groups g v

extends :
    (groups : SelectionGroups) (selected : SelectedVersions)
    → AllValid groups
    → SelectedValid selected
    → Extends groups selected
unfolding selected_versions
extends [] selected a s = record {
  raises = λ g v e. (v, e, ground (arith, compare_refl v), s g v e);
  covers = λ k g m. elim m [ ];
  occurs = λ g v e. inl e;
}
extends ((k, g) ∷ groups) selected a s =
    let next = select_version k g selected in
    let later = extends groups next a.1 (SelectedValid-select k g selected a.0 s) in
    record {
      raises = λ h v e.
          let (u, e', le) = select_raises k g selected a.0 s h v e in
          let (w, e'', le', ok) = later.raises h u e' in
          (
            w,
            e'',
            Le_trans v u w (s h v e) (SelectedValid-select k g selected a.0 s h u e') ok le le',
            ok,
          );
      covers = λ j h m. elim (Memᴰ.cases_cons m) [
        | inl p ↦
            let b = better k.version (lookup g selected) in
            let here = select_self k g selected in
            let (w, e, le, ok) = later.raises g b here in
            subst
              (λ t.
                (x : Str) × (lookup t.1 (selected_versions groups next) ≡ some x)
                × Le t.0.version x)
              (sym p)
              (
                w,
                e,
                Le_trans k.version b w a.0 (SelectedValid-select k g selected a.0 s g b here) ok
                    (better_above k.version (lookup g selected)) le,
              )
        | inr t ↦ later.covers j h t
      ];
      occurs = λ h v e. elim (later.occurs h v e) [
        | inl kept ↦ select-Occurs k g groups selected h v kept
        | inr (j, m, q) ↦ inr (j, Memᴰ.tail m, q)
      ];
    }

-- For every group of a module the loop selects a version; it is that of a module of the group, and
-- no module of the group has a higher one. This holds where the versions of all modules parse, for
-- every order in which the modules are visited.
pub selected_versions-IsHighest :
    (groups : SelectionGroups) → AllValid groups → IsHighest groups (selected_versions groups [])
selected_versions-IsHighest groups a =
    let all = extends groups [] a (λ g v e. cc) in
    record {
      covers = all.covers;
      occurs = λ g v e. elim (all.occurs g v e) [ inl none_yet ↦ absurd (cc) | inr o ↦ o ];
    }

-- The groups of a graph whose versions parse.
pub selection_groups-AllValid :
    (sets : AllowedVersionSets) (modules : Map ModuleKey Module)
    → All (λ e. IsValid e.0.version) modules
    → AllValid (selection_groups sets modules)
unfolding selection_groups
selection_groups-AllValid sets [] h = tt
selection_groups-AllValid sets ((k, m) ∷ modules) h =
    (h.0, selection_groups-AllValid sets modules h.1)

pub lookup-selection_groups :
    (sets : AllowedVersionSets) (modules : Map ModuleKey Module) (k : ModuleKey) (m : Module)
    → lookup k modules ≡ some m
    → lookup k (selection_groups sets modules) ≡ some (compute_selection_group m sets)
unfolding selection_groups
lookup-selection_groups sets [] k m e = cc
lookup-selection_groups sets ((j, n) ∷ modules) k m e = elim (==_cases j k) [
  | inl p ↦
      let here = (==_iff j k).1 p in
      let q : n ≡ m = cc (rw here at e) in
      rw here (ap (λ x. some (compute_selection_group x sets)) q)
  | inr (q, _) ↦ rw q (lookup-selection_groups sets modules k m (rw q at e))
]
