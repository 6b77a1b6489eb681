-- ===== src/Resolver/Depths.antt =====
-- `calculateModuleDepths` of resolver.go: a breadth-first search from the root's dependencies.
pub mod Search
pub mod Shortest
use go_bzlmod.Prelude.{
  ℕ, suc, zero, Bool, true, false, not, ◌&&◌, Str, Option, none, some, List, [], ◌∷◌, ◌++◌, length,
  contains, if◌then◌else◌, nat_eq, list_eq,
}
use go_bzlmod.Prelude.Maps.{Map, lookup, insert}
use go_bzlmod.Metadata.{has_value}

pub record Levels : Type 0 where
  pub depths : Map Str ℕ
  pub queue : List Str

abbrev pub deps_of : Option (List Str) → List Str
deps_of none = []
deps_of (some deps) = deps

abbrev pub depth_of : Option ℕ → ℕ
depth_of none = 0
depth_of (some d) = d

abbrev pub put_level : ℕ → Str → Levels → Levels
put_level depth name s = record {
  depths = insert name depth s.depths;
  queue = s.queue ++ name ∷ [];
}

-- The loop over the dependencies of the root, or of one module.
unfoldable pub put_levels : List Str → ℕ → List Str → Levels → Levels
put_levels selected depth [] s = s
put_levels selected depth (name ∷ names) s = put_levels selected depth names (
    if contains selected name && not (has_value (lookup name s.depths))
    then put_level depth name s
    else s)

unfoldable pub depth_loop : Map Str (List Str) → List Str → ℕ → Levels → Levels
depth_loop module_deps selected zero s = s
depth_loop module_deps selected (suc fuel) s = elim s.queue [
  | [] ↦ s
  | current ∷ rest ↦ depth_loop module_deps selected fuel (
      put_levels selected (suc (depth_of (lookup current s.depths)))
        (deps_of (lookup current module_deps)) (record { depths = s.depths; queue = rest }))
]

-- The queue gets every selected module at most once.
unfoldable pub calculate_module_depths : List Str → Map Str (List Str) → List Str → Map Str ℕ
calculate_module_depths root_deps module_deps selected =
    (depth_loop module_deps selected (length selected)
      (put_levels selected 1 root_deps (record { depths = []; queue = [] }))).depths
