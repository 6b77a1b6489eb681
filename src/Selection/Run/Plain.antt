-- ===== src/Selection/Run/Plain.antt =====
-- `Run` of selection/selection.go on a graph without maximal compatibility levels.
use go_bzlmod.Prelude.{Str, some, List, [], ◌∷◌, ◌++◌, map, ◌≡◌, sym, ap, subst, ◌∙◌, Memᴰ, ok}
use go_bzlmod.Prelude.Maps.{Map, lookup}
use go_bzlmod.Version.Sorting.{Le}
use go_bzlmod.Selection.Types.{
  ModuleKey, key_eq, DepSpec, to_module_key, Module, DepGraph, Override, SelectionResult,
}
use go_bzlmod.Selection.Groups.{
  AllowedVersionSets, selection_groups, selected_versions, compute_selection_group,
  compute_allowed_version_sets,
}
use go_bzlmod.Selection.Groups.Highest.{Occurs, selection_groups-AllValid, lookup-selection_groups}
use go_bzlmod.Selection.Groups.Ceiling.{ModulesValid}
use go_bzlmod.Selection.Strategies.{Strategy, make_default_strategy}
use go_bzlmod.Selection.Strategies.Default.{default_strategy_selects_highest}
use go_bzlmod.Selection.Strategies.Plain.{NoMaximum, enumerate_without_maximum}
use go_bzlmod.Selection.Walker.{resolve}
use go_bzlmod.Selection.Run.{run}
use go_bzlmod.Selection.Run.Selected.{run_correct}

only_one {ℓ} : {A : Type ℓ} (a b : A) (xs ys : List A) → a ∷ [] ≡ xs ++ b ∷ ys → a ≡ b
only_one a b [] ys e = cc
only_one a b (x ∷ []) ys e = absurd (cc e)
only_one a b (x ∷ y ∷ xs) ys e = absurd (cc e)

-- The dependency resolves to the highest version of its selection group.
pub record ResolvesToHighest (sets : AllowedVersionSets) (graph : DepGraph) (d : DepSpec)
    (target : Module) (v : Str) : Type 0 where
  pub occurs : Occurs (selection_groups sets graph.modules) (compute_selection_group target sets) v
  pub no_lower : Le d.version v
  pub highest :
      (k : ModuleKey)
      → Memᴰ (k, compute_selection_group target sets) (selection_groups sets graph.modules)
      → Le k.version v

-- Where all versions parse and no dependency sets a maximal compatibility level, the resolved graph
-- has each of its modules with every dependency on a module of the graph resolved to the highest
-- version of that module's selection group, which is no lower than the version asked for.
pub run_selects_highest :
    (graph : DepGraph) (overrides : Map Str Override) (r : SelectionResult)
    → ModulesValid graph
    → NoMaximum graph.modules
    → run graph overrides ≡ ok (some r)
    → (sets : AllowedVersionSets) × (strategy : Strategy) × (compute_allowed_version_sets overrides
          graph
        ≡ ok sets)
      × ((k : ModuleKey) (m old : Module)
          → lookup k r.resolved_graph ≡ some m
          → lookup k graph.modules ≡ some old
          → m.deps ≡ map (resolve strategy) old.deps)
      × ((d : DepSpec) (target : Module)
          → lookup (to_module_key d) graph.modules ≡ some target
          → ResolvesToHighest sets graph d target (strategy d))
run_selects_highest graph overrides r valid none_set e =
    let h = run_correct graph overrides r e in
    let sets = h.sets in
    let groups = selection_groups sets graph.modules in
    let default = make_default_strategy groups (selected_versions groups []) in
    let same : default ≡ h.strategy = only_one default h.strategy h.failed h.untried (
      sym (enumerate_without_maximum graph groups (selected_versions groups []) none_set)
      ∙ h.strategies) in
    (
      sets,
      h.strategy,
      h.allowed,
      λ k m old p q.
          let c =
            (h.succeeds.collected.entries k m).0
              (subst (λ g. lookup k g ≡ some m) h.succeeds.resolved_graph p) in
          let o : c.1.0 ≡ old = cc (c.1.1, q) in
          ap (λ (x : Module). x.deps) c.1.2
          ∙ ap (λ (x : Module). map (resolve h.strategy) x.deps) o,
      λ d target p.
          let s =
            default_strategy_selects_highest groups d (compute_selection_group target sets)
              (selection_groups-AllValid sets graph.modules valid)
              (lookup-selection_groups sets graph.modules (to_module_key d) target p) in
          subst (λ f. ResolvesToHighest sets graph d target (f d)) same
            (record { occurs = s.0; no_lower = s.1; highest = s.2 }),
    )
