-- ===== src/Selection/Groups/Ceiling.antt =====
-- Multiple-version overrides in selection/selection.go: which versions `computeAllowedVersionSets`
-- allows, and which of them `computeSelectionGroup` aims at.
use go_bzlmod.Prelude.{
  Ordering, lt, eq, gt, Str, List, [], ◌∷◌, ◌++◌, All, All-at, All-append, All-of_mem, ◌≡◌, ◌≢◌,
  refl, ◌↔◌, subst, nat_eq, list_eq, inl, inr, ◌⊎◌, arith, Memᴰ, ok, Result-cases, Option-cases,
}
use go_bzlmod.Prelude.Memᴰ
use go_bzlmod.Prelude.Int.{int_eq}
use go_bzlmod.Prelude.Maps.{Map, lookup, insert, All-insert, All-lookup}
use go_bzlmod.Version
use go_bzlmod.Version.Order.{IsValid, compare_refl}
use go_bzlmod.Version.Sorting.{Le, IsSorted, sort_correct, All-sort}
use go_bzlmod.Selection.Types.{
  key_eq, Module, DepGraph, Override, multiple_version, single_version, non_registry,
  ModuleNameAndCompatLevel, name_and_compat_eq,
}
use go_bzlmod.Selection.Groups.Allowed.{IsAllowed, sets-complete}
use go_bzlmod.Selection.Groups.{
  AllowedVersionSets, allowed_of, add_allowed_versions, add_overrides, sort_allowed,
  compute_allowed_version_sets, ceiling, compute_selection_group,
}

abbrev pub AllAllowed : Map Str Override → DepGraph → AllowedVersionSets → Type 0
AllAllowed overrides graph = All (λ e. All (IsAllowed overrides graph e.0) e.1)

module _ (all : Map Str Override) (graph : DepGraph) where
  All-allowed_of :
      (k : ModuleNameAndCompatLevel) (sets : AllowedVersionSets)
      → AllAllowed all graph sets
      → All (IsAllowed all graph k) (allowed_of k sets)
  All-allowed_of k sets h = elim (Option-cases (lookup k sets)) [
    | inl e ↦ rw (e, All) tt
    | inr (vs, e) ↦ rw (e, All) (All-lookup (λ e. All (IsAllowed all graph e.0) e.1) k sets h e)
  ]

  module _ (name : Str) (versions : List Str) (registry : Str)
      (listed : Memᴰ (name, multiple_version versions registry) all) where
    add_allowed_versions_sound :
        (vs : List Str) (sets sets' : AllowedVersionSets)
        → All (λ v. Memᴰ v versions) vs
        → AllAllowed all graph sets
        → add_allowed_versions graph name vs sets ≡ ok sets'
        → AllAllowed all graph sets'
    unfolding add_allowed_versions
    add_allowed_versions_sound [] sets sets' o h e = subst (AllAllowed all graph) (cc) h
    add_allowed_versions_sound (v ∷ vs) sets sets' o h e =
        elim (Option-cases (lookup (record { name = name; version = v }) graph.modules)) [
          | inl missing ↦ absurd (let p = rw (missing, add_allowed_versions) at e in cc p)
          | inr (m, found) ↦
              let k : ModuleNameAndCompatLevel = record {
                module_name = name;
                compat_level = m.compat_level;
              } in
              let this : IsAllowed all graph k v = record {
                versions = versions;
                registry = registry;
                listed = listed;
                occurs = o.0;
                found = m;
                in_graph = found;
                level = refl;
              } in
              add_allowed_versions_sound vs (insert k (allowed_of k sets ++ v ∷ []) sets) sets' o.1
                (All-insert (λ e. All (IsAllowed all graph e.0) e.1) k _ sets
                  (All-append (IsAllowed all graph k) (allowed_of k sets) (v ∷ [])
                    (All-allowed_of k sets h) (this, tt))
                  h)
                (rw (found, add_allowed_versions) at e)
        ]

  add_overrides_sound :
      (rest : Map Str Override) (sets sets' : AllowedVersionSets)
      → All (λ e. Memᴰ e all) rest
      → AllAllowed all graph sets
      → add_overrides graph rest sets ≡ ok sets'
      → AllAllowed all graph sets'
  unfolding add_overrides
  add_overrides_sound [] sets sets' o h e = subst (AllAllowed all graph) (cc) h
  add_overrides_sound ((name, multiple_version versions registry) ∷ rest) sets sets' o h e =
      elim (Result-cases (add_allowed_versions graph name versions sets)) [
        | inr (f, p) ↦ absurd (let q = rw (p, add_overrides) at e in cc q)
        | inl (next, p) ↦
            add_overrides_sound rest next sets' o.1
              (add_allowed_versions_sound name versions registry o.0 versions sets next
                (All-of_mem (λ v. Memᴰ v versions) versions (λ v m. m)) h p)
              (rw (p, add_overrides) at e)
      ]
  add_overrides_sound ((name, single_version v r p) ∷ rest) sets sets' o h e =
      add_overrides_sound rest sets sets' o.1 h e
  add_overrides_sound ((name, non_registry k p) ∷ rest) sets sets' o h e =
      add_overrides_sound rest sets sets' o.1 h e

-- The versions of all modules of the graph parse.
abbrev pub ModulesValid : DepGraph → Type 0
ModulesValid graph = All (λ e. IsValid e.0.version) graph.modules

-- `t` is the lowest of the allowed versions that are no lower than `v`, or empty if there is none.
pub record IsCeiling (v : Str) (allowed : List Str) (t : Str) : Type 0 where
  pub outcome :
      ((t ≡ []) × All (λ av. Version.compare av v ≡ lt) allowed)
      ⊎ (Memᴰ t allowed
          × (Version.compare t v ≢ lt)
          × All (λ av. Version.compare av v ≢ lt → Le t av) allowed)

ceiling_step :
    (v av : Str) (avs : List Str)
    → Version.compare av v ≡ lt
    → IsCeiling v avs (ceiling v avs)
    → IsCeiling v (av ∷ avs) (ceiling v (av ∷ avs))
unfolding ceiling
ceiling_step v av avs h c =
    rw (h, ceiling)
      (record {
        outcome = elim c.outcome [
          | inl (e, low) ↦ inl (e, (h, low))
          | inr (m, ge, least) ↦ inr (Memᴰ.tail m, ge, ((λ q. absurd (q h)), least))
        ];
      })

ceiling_here :
    (v av : Str) (avs : List Str)
    → Version.compare av v ≢ lt
    → IsSorted (av ∷ avs)
    → IsCeiling v (av ∷ avs) (ceiling v (av ∷ avs))
unfolding ceiling
ceiling_here v av avs h s =
    let e : ceiling v (av ∷ avs) ≡ av = ground arith in
    rw e (record {
      outcome = inr (
        Memᴰ.head refl,
        h,
        (
          (λ _. ground (arith, compare_refl av)),
          All-of_mem (λ w. Version.compare w v ≢ lt → Le av w) avs
              (λ w m _. All-at (Le av) avs s.0 m),
        ),
      );
    })

lt-cases : (r : Ordering) → (r ≡ lt) ⊎ (r ≢ lt)
lt-cases lt = inl refl
lt-cases eq = inr (λ h. cc)
lt-cases gt = inr (λ h. cc)

ceiling-IsCeiling :
    (v : Str) (allowed : List Str) → IsSorted allowed → IsCeiling v allowed (ceiling v allowed)
ceiling-IsCeiling v [] s = unfold ceiling in record { outcome = inl (refl, tt) }
ceiling-IsCeiling v (av ∷ avs) s = elim (lt-cases (Version.compare av v)) [
  | inl h ↦ ceiling_step v av avs h (ceiling-IsCeiling v avs s.1)
  | inr h ↦ ceiling_here v av avs h s
]

module _ (overrides : Map Str Override) (graph : DepGraph) (valid : ModulesValid graph) where
  -- What holds of each entry of the sorted sets.
  abbrev Sound : ModuleNameAndCompatLevel × List Str → Type 0
  Sound e = All (IsAllowed overrides graph e.0) e.1 × IsSorted e.1

  allowed-IsValid :
      (k : ModuleNameAndCompatLevel) (v : Str) → IsAllowed overrides graph k v → IsValid v
  allowed-IsValid k v h =
      All-lookup (λ e. IsValid e.0.version) (record { name = k.module_name; version = v })
        graph.modules valid h.in_graph

  sort_allowed-Sound :
      (sets : AllowedVersionSets) → AllAllowed overrides graph sets → All Sound (sort_allowed sets)
  unfolding sort_allowed
  sort_allowed-Sound [] h = tt
  sort_allowed-Sound ((k, vs) ∷ rest) h = (
    (
      All-sort (IsAllowed overrides graph k) vs h.0,
      (sort_correct vs (
          All-of_mem IsValid vs
            (λ v m. allowed-IsValid k v (All-at (IsAllowed overrides graph k) vs h.0 m)))).1,
    ),
    sort_allowed-Sound rest h.1,
  )

  sets-Sound :
      (sets : AllowedVersionSets)
      → compute_allowed_version_sets overrides graph ≡ ok sets
      → All Sound sets
  unfolding compute_allowed_version_sets
  sets-Sound sets e = elim (Result-cases (add_overrides graph overrides [])) [
    | inr (f, p) ↦ absurd (let q = rw (p, compute_allowed_version_sets) at e in cc q)
    | inl (found, p) ↦
        subst (All Sound)
          (let q : ok (sort_allowed found) ≡ ok sets = rw (p, compute_allowed_version_sets) at e in
            cc q)
          (sort_allowed-Sound found (
            add_overrides_sound overrides graph overrides [] found
              (All-of_mem (λ x. Memᴰ x overrides) overrides (λ x m. m)) tt p))
  ]

-- A module's target is empty if no version is allowed for its name and level. Otherwise it is the
-- lowest of the allowed versions that is no lower than the module's own version, or empty if there is
-- none. The allowed versions are exactly those that a multiple-version override of the module's name
-- lists and whose module in the graph has that level. This is for graphs whose versions all parse.
pub target_correct :
    (overrides : Map Str Override) (graph : DepGraph) (sets : AllowedVersionSets)
    → ModulesValid graph
    → compute_allowed_version_sets overrides graph ≡ ok sets
    → (m : Module)
    → let k : ModuleNameAndCompatLevel = record {
      module_name = m.key.name;
      compat_level = m.compat_level;
    } in
      let t = (compute_selection_group m sets).target_allowed_version in
      (((v : Str) → ¬ IsAllowed overrides graph k v) × (t ≡ []))
      ⊎ ((allowed : List Str) × ((v : Str) → Memᴰ v allowed ↔ IsAllowed overrides graph k v)
          × IsCeiling m.key.version allowed t)
unfolding compute_selection_group
target_correct overrides graph sets valid e m =
    let k : ModuleNameAndCompatLevel = record {
      module_name = m.key.name;
      compat_level = m.compat_level;
    } in
    elim (Option-cases (lookup k sets)) [
      | inl none_there ↦ inl (
        λ v a.
            Memᴰ.not-nil
              (rw (none_there, allowed_of) at (sets-complete graph overrides sets e k v a)),
        rw (none_there, compute_selection_group),
      )
      | inr (allowed, found) ↦
          let s =
            All-lookup (Sound overrides graph valid) k sets
              (sets-Sound overrides graph valid sets e) found in
          inr (
            allowed,
            λ v. (
              λ i. All-at (IsAllowed overrides graph k) allowed s.0 i,
              λ a. rw (found, allowed_of) at (sets-complete graph overrides sets e k v a),
            ),
            rw (found, compute_selection_group) (ceiling-IsCeiling m.key.version allowed s.1),
          )
    ]
