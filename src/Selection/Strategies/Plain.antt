-- ===== src/Selection/Strategies/Plain.antt =====
-- `enumerateStrategies` of selection/selection.go on a graph without maximal compatibility levels.
use go_bzlmod.Prelude.{true, List, [], ◌∷◌, All, ◌≡◌, refl}
use go_bzlmod.Prelude.Int.{pos, ltb_ℤ}
use go_bzlmod.Prelude.Maps.{Map}
use go_bzlmod.Selection.Types.{ModuleKey, DepSpec, Module, DepGraph}
use go_bzlmod.Selection.Groups.{SelectionGroups, SelectedVersions}
use go_bzlmod.Selection.Strategies.{
  see_deps, see_modules, DepSpecKey, compute_all_possible_resolutions, ambiguous, strategies_for,
  enumerate_strategies, make_default_strategy,
}

-- A negative maximum sets none.
abbrev pub SetsNoMaximum : DepSpec → Type 0
SetsNoMaximum dep = ltb_ℤ dep.max_compatibility_level (pos 0) ≡ true

abbrev pub NoMaximum : Map ModuleKey Module → Type 0
NoMaximum = All (λ e. All SetsNoMaximum e.1.deps × All SetsNoMaximum e.1.nodep_deps)

see_deps_nothing :
    (deps : List DepSpec) (seen : Map DepSpecKey DepSpec)
    → All SetsNoMaximum deps
    → see_deps deps seen ≡ seen
unfolding see_deps
see_deps_nothing [] seen h = refl
see_deps_nothing (d ∷ deps) seen h = rw h.0 (see_deps_nothing deps seen h.1)

see_modules_nothing :
    (modules : Map ModuleKey Module) (seen : Map DepSpecKey DepSpec)
    → NoMaximum modules
    → see_modules modules seen ≡ seen
unfolding see_modules
see_modules_nothing [] seen h = refl
see_modules_nothing ((k, m) ∷ rest) seen h =
    rw (see_deps_nothing m.deps seen h.0.0, see_deps_nothing m.nodep_deps seen h.0.1)
      (see_modules_nothing rest seen h.1)

-- Without maximal compatibility levels the default strategy is the only one.
pub enumerate_without_maximum :
    (graph : DepGraph) (groups : SelectionGroups) (selected : SelectedVersions)
    → NoMaximum graph.modules
    → enumerate_strategies graph groups selected ≡ make_default_strategy groups selected ∷ []
unfolding enumerate_strategies compute_all_possible_resolutions strategies_for ambiguous
enumerate_without_maximum graph groups selected h = rw (see_modules_nothing graph.modules [] h)
