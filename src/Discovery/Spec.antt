-- ===== src/Discovery/Spec.antt =====
-- What the discovery of selection_api.go is to find, said without an order of steps.
use go_bzlmod.Prelude.{
  true, false, Option, none, some, Result, ok, err, List, ◌++◌, ◌≡◌, if◌then◌else◌, ◌==◌, Memᴰ,
}
use go_bzlmod.Selection.Types.{ModuleKey, key_eq, DepSpec, to_module_key, Module}
use go_bzlmod.Discovery.{
  FetchFailure, not_found, failed, Sources, Target, local_module, placeholder, from_registry,
  target, root_key, module_of, placeholder_module,
}

module _ {Error : Type 0} (w : Sources Error) where
  abbrev pub fetch_outcome :
      ModuleKey
      → Result (FetchFailure Error) go_bzlmod.Modules.ModuleInfo
      → Result Error (Option Module)
  fetch_outcome key (ok info) = ok (some (module_of w key info false))
  fetch_outcome key (err not_found) = ok none
  fetch_outcome key (err (failed e)) = err e

  abbrev pub local_outcome :
      ModuleKey → Result Error go_bzlmod.Modules.ModuleInfo → Result Error (Option Module)
  local_outcome key (ok info) = ok (some (module_of w key info false))
  local_outcome key (err e) = err e

  abbrev pub target_outcome : Target → Result Error (Option Module)
  target_outcome (local_module key path) = local_outcome key (w.parse_local_module path)
  target_outcome (placeholder key) = ok (some (placeholder_module w key))
  target_outcome (from_registry key) = fetch_outcome key (w.get_module_file key.name key.version)

  -- The module of a key, none if the registry has none, or the error of its source.
  abbrev pub outcome : ModuleKey → Result Error (Option Module)
  outcome key =
      if key == root_key w
      then ok (some (module_of w (root_key w) w.root_module true))
      else target_outcome (target w key)

  -- Of the root, only the dependencies are followed; of any other module the nodep ones as well.
  abbrev pub followed : ModuleKey → Module → List DepSpec
  followed key m = if key == root_key w then m.deps else m.deps ++ m.nodep_deps

  -- The keys that the root leads to.
  pub data Leads : ModuleKey → Type 0 where
    root : {key : ModuleKey} → key ≡ root_key w → Leads key
    step :
        {key other : ModuleKey} (m : Module) (dep : DepSpec)
        → Leads key
        → outcome key ≡ ok (some m)
        → Memᴰ dep (followed key m)
        → other ≡ to_module_key dep
        → Leads other
