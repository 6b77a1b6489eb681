-- ===== src/Discovery/Keys.antt =====
-- The keys of the discovery in selection_api.go: the version that an override puts into a
-- dependency is the one that its target has.
use go_bzlmod.Prelude.{
  Bool, Bool-cases, Str, Option, none, some, List, [], ◌∷◌, All, ◌≡◌, refl, ap, ==_iff, nat_eq,
  list_eq, arith, ◌∙◌, inl, inr,
}
use go_bzlmod.Prelude.Maps.{lookup}
use go_bzlmod.Selection.Types.{ModuleKey, DepSpec, to_module_key}
use go_bzlmod.Modules.{Dependency, Override}
use go_bzlmod.Discovery.{
  Sources, skips, overridden_version, spec_of, build_dep_specs, Target, local_module, placeholder,
  from_registry, overridden_target, target_key, target, specs,
}

abbrev spec_key : Option Override → Str → Str → ModuleKey
spec_key o name version = record { name = name; version = overridden_version o version }

overridden_target-spec_key :
    (o : Option Override) (name version : Str)
    → target_key (overridden_target o (spec_key o name version)) ≡ spec_key o name version
overridden_target-spec_key none name version = refl
overridden_target-spec_key (some o) name version =
    ground (arith, ==_iff o.version [], ==_iff o.path [])

overridden_target_idem :
    (o : Option Override) (key : ModuleKey)
    → overridden_target o (target_key (overridden_target o key)) ≡ overridden_target o key
overridden_target_idem none key = refl
overridden_target_idem (some o) key = ground (arith, ==_iff o.version [], ==_iff o.path [])

name-overridden_target :
    (o : Option Override) (key : ModuleKey) → (target_key (overridden_target o key)).name ≡ key.name
name-overridden_target none key = refl
name-overridden_target (some o) key = ground arith

module _ {Error : Type 0} (w : Sources Error) where
  -- The key of a dependency is that of its target.
  abbrev pub IsNormal : DepSpec → Type 0
  IsNormal d = target_key (target w (to_module_key d)) ≡ to_module_key d

  pub specs-IsNormal :
      (deps : List Dependency) (is_root : Bool) → All IsNormal (specs w deps is_root)
  unfolding build_dep_specs
  specs-IsNormal [] is_root = tt
  specs-IsNormal (dep ∷ deps) is_root = elim (Bool-cases (skips w.include_dev_deps is_root dep)) [
    | inl h ↦ rw (h, build_dep_specs) (specs-IsNormal deps is_root)
    | inr h ↦
        rw (h, build_dep_specs)
          (
            overridden_target-spec_key (lookup dep.name (go_bzlmod.Discovery.overrides w)) dep.name
                dep.version,
            specs-IsNormal deps is_root,
          )
  ]

  -- The target of a target's key is that target.
  pub target_idem : (key : ModuleKey) → target w (target_key (target w key)) ≡ target w key
  target_idem key =
      let o : Option Override = lookup key.name (go_bzlmod.Discovery.overrides w) in
      ap
        (λ n.
          overridden_target (lookup n (go_bzlmod.Discovery.overrides w))
            (target_key (target w key)))
        (name-overridden_target o key)
      ∙ overridden_target_idem o key
