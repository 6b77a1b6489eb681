-- ===== src/Selection/Run/Selected.antt =====
-- What `Run` of selection/selection.go returns.
use go_bzlmod.Prelude.{
  bind_ok, Str, true, false, Option, none, some, List, [], ◌∷◌, ◌++◌, All, ◌≡◌, ◌≢◌, refl, sym, ap,
  ap₂, subst, ◌∙◌, inl, inr, ok, err, Result-cases, ==_cases, ==_iff,
}
use go_bzlmod.Prelude.Maps.{Map, lookup}
use go_bzlmod.Selection.Types.{
  ModuleKey, key_eq, Module, DepGraph, Override, SelectionResult, SelectionError, out_of_fuel,
}
use go_bzlmod.Selection.Groups.{
  AllowedVersionSets, SelectionGroups, compute_allowed_version_sets, selection_groups,
  selected_versions,
}
use go_bzlmod.Selection.Groups.Errors.{allowed_sets_error}
use go_bzlmod.Selection.Strategies.{Strategy, enumerate_strategies}
use go_bzlmod.Selection.Strategies.Enumerate.{enumerate_strategies-ne-nil}
use go_bzlmod.Selection.Walker.{WalkState, walk}
use go_bzlmod.Selection.Walker.Deps.{resolved_module}
use go_bzlmod.Selection.Walker.Ends.{walk_terminates, bind-ne-err}
use go_bzlmod.Selection.Walker.Reachable.{IsCollected, walk_correct}
use go_bzlmod.Selection.Walker.Conflicts.{IsConsistent, walk-IsConsistent}
use go_bzlmod.Selection.Run.{
  walker_of, unpruned_graph_of, try_strategy, try_strategies, keep_first, run,
}

-- A strategy that succeeds with the result `r`.
pub record Succeeds (graph : DepGraph) (overrides : Map Str Override) (groups : SelectionGroups)
    (strategy : Strategy) (r : SelectionResult) : Type 0 where
  -- The walk that includes nodep dependencies.
  pub validated : WalkState
  pub collected_all : IsCollected (walker_of false graph overrides groups) strategy validated
  pub consistent_all : IsConsistent (walker_of false graph overrides groups) strategy validated
  -- The walk without them, whose graph is returned.
  pub pruned : WalkState
  pub collected : IsCollected (walker_of true graph overrides groups) strategy pruned
  pub consistent : IsConsistent (walker_of true graph overrides groups) strategy pruned
  pub resolved_graph : r.resolved_graph ≡ pruned.new_graph
  pub bfs_order : r.bfs_order ≡ pruned.bfs_order
  pub unpruned :
      (k : ModuleKey) (m : Module)
      → lookup k graph.modules ≡ some m
      → lookup k r.unpruned_graph ≡ some (resolved_module strategy k m)

lookup-unpruned :
    (strategy : Strategy) (modules : Map ModuleKey Module) (k : ModuleKey) (m : Module)
    → lookup k modules ≡ some m
    → lookup k (unpruned_graph_of strategy modules) ≡ some (resolved_module strategy k m)
unfolding unpruned_graph_of
lookup-unpruned strategy [] k m e = cc
lookup-unpruned strategy ((j, n) ∷ modules) k m e = elim (==_cases j k) [
  | inl p ↦
      let here = (==_iff j k).1 p in
      let q : n ≡ m = cc (rw here at e) in rw here (ap some (ap₂ (resolved_module strategy) p q))
  | inr (q, _) ↦ rw q (lookup-unpruned strategy modules k m (rw q at e))
]

try_strategy-Succeeds :
    (graph : DepGraph) (overrides : Map Str Override) (groups : SelectionGroups)
    (strategy : Strategy) (r : SelectionResult)
    → try_strategy graph overrides groups strategy ≡ ok r
    → Succeeds graph overrides groups strategy r
unfolding try_strategy
try_strategy-Succeeds graph overrides groups strategy r e =
    let (t, p, e') = bind_ok (walk (walker_of false graph overrides groups) strategy) _ e in
    let (u, q, e'') = bind_ok (walk (walker_of true graph overrides groups) strategy) _ e' in
    let built : SelectionResult = record {
      resolved_graph = u.new_graph;
      unpruned_graph = unpruned_graph_of strategy graph.modules;
      bfs_order = u.bfs_order;
    } in
    let same : built ≡ r = cc e'' in
    record {
      validated = t;
      collected_all = walk_correct (walker_of false graph overrides groups) strategy t p;
      consistent_all = walk-IsConsistent (walker_of false graph overrides groups) strategy t p;
      pruned = u;
      collected = walk_correct (walker_of true graph overrides groups) strategy u q;
      consistent = walk-IsConsistent (walker_of true graph overrides groups) strategy u q;
      resolved_graph = sym (ap (λ (x : SelectionResult). x.resolved_graph) same);
      bfs_order = sym (ap (λ (x : SelectionResult). x.bfs_order) same);
      unpruned = λ k m f.
          subst
            (λ (x : SelectionResult).
              lookup k x.unpruned_graph ≡ some (resolved_module strategy k m))
            same (lookup-unpruned strategy graph.modules k m f);
    }

-- What it means that `Run` returns `r`.
pub record IsSelected (graph : DepGraph) (overrides : Map Str Override) (r : SelectionResult)
    : Type 0 where
  pub sets : AllowedVersionSets
  pub allowed : compute_allowed_version_sets overrides graph ≡ ok sets
  pub failed : List Strategy
  pub strategy : Strategy
  pub untried : List Strategy
  pub strategies :
      enumerate_strategies graph
        (selection_groups sets graph.modules)
        (selected_versions (selection_groups sets graph.modules) [])
      ≡ failed ++ strategy ∷ untried
  pub all_failed :
      All
        (λ s.
          (e : SelectionError) × (try_strategy graph overrides
              (selection_groups sets graph.modules)
              s
            ≡ err e))
        failed
  pub succeeds : Succeeds graph overrides (selection_groups sets graph.modules) strategy r

module _ (graph : DepGraph) (overrides : Map Str Override) (groups : SelectionGroups) where
  abbrev Fails : Strategy → Type 0
  Fails s = (e : SelectionError) × (try_strategy graph overrides groups s ≡ err e)

  first_success :
      (strategies : List Strategy) (first : Option SelectionError) (r : SelectionResult)
      → try_strategies graph overrides groups strategies first ≡ ok (some r)
      → (failed : List Strategy) × (s : Strategy) × (rest : List Strategy) × (strategies
          ≡ failed ++ s ∷ rest)
        × All Fails failed
        × (try_strategy graph overrides groups s ≡ ok r)
  unfolding try_strategies
  first_success [] none r e = absurd (cc e)
  first_success [] (some f) r e = absurd (cc e)
  first_success (s ∷ ss) first r e = elim (Result-cases (try_strategy graph overrides groups s)) [
    | inl (r', p) ↦ let q = rw (p, try_strategies) at e in ([], s, ss, refl, tt, p ∙ cc q)
    | inr (f, p) ↦
        let (failed, t, rest, same, all, q) =
          first_success ss (keep_first first f) r (rw (p, try_strategies) at e) in
        (s ∷ failed, t, rest, ap (◌∷◌ s) same, ((f, p), all), q)
  ]

  try_strategy-ne-out_of_fuel :
      (s : Strategy) → try_strategy graph overrides groups s ≢ err out_of_fuel
  unfolding try_strategy
  try_strategy-ne-out_of_fuel s =
      bind-ne-err _ _ out_of_fuel (walk_terminates (walker_of false graph overrides groups) s) (λ _.
        bind-ne-err _ _ out_of_fuel (walk_terminates (walker_of true graph overrides groups) s)
          (λ t e. cc e))

  -- With an error kept or a strategy left, the loop ends in a result or in one of the source's
  -- errors.
  abbrev IsProper : Option SelectionError → List Strategy → Type 0
  IsProper first strategies = (first ≢ some out_of_fuel) × ((first ≡ none) → strategies ≢ [])

  try_strategies_ends :
      (strategies : List Strategy) (first : Option SelectionError)
      → IsProper first strategies
      → (try_strategies graph overrides groups strategies first ≢ ok none)
        × (try_strategies graph overrides groups strategies first ≢ err out_of_fuel)
  unfolding try_strategies
  try_strategies_ends [] none h = absurd (h.1 refl refl)
  try_strategies_ends [] (some e) h = ((λ p. cc p), (λ p. h.0 (cc p)))
  try_strategies_ends (s ∷ ss) first h =
      elim (Result-cases (try_strategy graph overrides groups s)) [
        | inl (r, p) ↦ rw (p, try_strategies) ((λ q. cc q), (λ q. cc q))
        | inr (e, p) ↦
            rw (p, try_strategies)
              (try_strategies_ends ss (keep_first first e)
                (kept first h.0 e (λ q. try_strategy-ne-out_of_fuel s (p ∙ ap err q))))
      ]
    where
      kept :
          (o : Option SelectionError)
          → o ≢ some out_of_fuel
          → (e : SelectionError) → e ≢ out_of_fuel
          → IsProper (keep_first o e) ss
      kept none n e m = ((λ q. m (cc q)), (λ q. absurd (cc q)))
      kept (some f) n e m = (n, (λ q. absurd (cc q)))

-- A result of `Run` comes from the first strategy that succeeds: the strategies before it all
-- failed. Its walk with nodep dependencies passed every check; the resolved graph and the order are
-- those of its walk without them; and the unpruned graph has every module, resolved.
pub run_correct :
    (graph : DepGraph) (overrides : Map Str Override) (r : SelectionResult)
    → run graph overrides ≡ ok (some r)
    → IsSelected graph overrides r
unfolding run
run_correct graph overrides r e =
    let (sets, p, e') = bind_ok (compute_allowed_version_sets overrides graph) _ e in
    let groups = selection_groups sets graph.modules in
    let (failed, s, rest, same, all, q) = first_success graph overrides groups _ none r e' in
    record {
      sets = sets;
      allowed = p;
      failed = failed;
      strategy = s;
      untried = rest;
      strategies = same;
      all_failed = all;
      succeeds = try_strategy-Succeeds graph overrides groups s r q;
    }

allowed-ne-out_of_fuel :
    (graph : DepGraph) (overrides : Map Str Override)
    → compute_allowed_version_sets overrides graph ≢ err out_of_fuel
allowed-ne-out_of_fuel graph overrides e =
    let m = (allowed_sets_error graph overrides).0 out_of_fuel e in cc m.is_error

-- `Run` returns a result or one of the source's errors: never two nils, and never for want of fuel.
pub run_total :
    (graph : DepGraph) (overrides : Map Str Override)
    → (run graph overrides ≢ ok none) × (run graph overrides ≢ err out_of_fuel)
unfolding run
run_total graph overrides = elim (Result-cases (compute_allowed_version_sets overrides graph)) [
  | inr (e, p) ↦ rw (p, run) ((λ q. cc q), (λ q. allowed-ne-out_of_fuel graph overrides (p ∙ cc q)))
  | inl (sets, p) ↦
      rw (p, run)
        (try_strategies_ends graph overrides (selection_groups sets graph.modules) _ none
          ((λ q. cc q), (λ _. enumerate_strategies-ne-nil graph _ _)))
]
