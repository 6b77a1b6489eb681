-- ===== src/Selection/Walker/Deps.antt =====
-- One round of `walk` in selection/selection.go: what it means that the round succeeds.
use go_bzlmod.Prelude.{
  bind_ok, Str, none, some, List, [], ◌∷◌, map, All, Option-cases, Bool-cases, arith, ◌≡◌, subst,
  inl, inr, ◌⊎◌, ok,
}
use go_bzlmod.Prelude.Int.{ℤ, pos, ◌≤ℤ◌, ltb_ℤ, ltb_ℤ_false}
use go_bzlmod.Prelude.Maps.{Map, lookup}
use go_bzlmod.Selection.Types.{
  ModuleKey, key_eq, DepSpec, Module, DepGraph, SelectionError, dep_level_too_high,
  nodep_level_too_high,
}
use go_bzlmod.Selection.Strategies.{Strategy}
use go_bzlmod.Selection.Walker.{
  Walker, ExistingModule, QueueItem, WalkState, resolve, excessive_level, transform_deps, visit,
  new_module, add_module, process,
}

-- The old module under the new key, with its dependencies resolved.
abbrev pub resolved_module : Strategy → ModuleKey → Module → Module
resolved_module strategy key old = record {
  key = key;
  deps = map (resolve strategy) old.deps;
  compat_level = old.compat_level;
  nodep_deps = map (resolve strategy) old.nodep_deps;
}

-- A dependency with a maximal compatibility level, one that is not negative, does not resolve to a
-- module above that level.
abbrev pub LevelFits : DepGraph → Strategy → DepSpec → Type 0
LevelFits graph strategy d =
    (m : Module)
    → pos 0 ≤ℤ d.max_compatibility_level
    → lookup (record { name = d.name; version = strategy d }) graph.modules ≡ some m
    → m.compat_level ≤ℤ d.max_compatibility_level

abbrev pub LevelsFit : DepGraph → Strategy → List DepSpec → Type 0
LevelsFit graph strategy = All (LevelFits graph strategy)

excessive_level-LevelFits :
    (graph : DepGraph) (strategy : Strategy) (d : DepSpec)
    → excessive_level graph strategy d ≡ none
    → LevelFits graph strategy d
unfolding excessive_level
excessive_level-LevelFits graph strategy d h m limited found =
    elim (Bool-cases (ltb_ℤ d.max_compatibility_level (pos 0))) [
      | inl q ↦ ground (arith, q, limited)
      | inr q ↦ elim (Bool-cases (ltb_ℤ d.max_compatibility_level m.compat_level)) [
        | inl l ↦
            absurd
              (let z : some m.compat_level ≡ none = rw (q, found, l, excessive_level) at h in cc)
        | inr l ↦ ltb_ℤ_false d.max_compatibility_level m.compat_level l
      ]
    ]

transform_deps_lem :
    (too_high : ModuleKey → DepSpec → Str → ℤ → SelectionError) (graph : DepGraph)
    (strategy : Strategy) (key : ModuleKey) (deps out : List DepSpec)
    → transform_deps too_high graph strategy key deps ≡ ok out
    → (out ≡ map (resolve strategy) deps) × LevelsFit graph strategy deps
unfolding transform_deps
transform_deps_lem too_high graph strategy key [] out h = (cc, tt)
transform_deps_lem too_high graph strategy key (d ∷ deps) out h =
    elim (Option-cases (excessive_level graph strategy d)) [
      | inr (level, e) ↦ absurd (let q = rw (e, transform_deps) at h in cc q)
      | inl e ↦
          let (rest, p, q) =
            bind_ok (transform_deps too_high graph strategy key deps)
              (λ r. ok (resolve strategy d ∷ r)) (rw (e, transform_deps) at h) in
          let (same, fit) = transform_deps_lem too_high graph strategy key deps rest p in
          (cc (same, q), (excessive_level-LevelFits graph strategy d e, fit))
    ]

pub new_module_lem :
    (graph : DepGraph) (strategy : Strategy) (key : ModuleKey) (old m : Module)
    → new_module graph strategy key old ≡ ok m
    → (m ≡ resolved_module strategy key old)
      × LevelsFit graph strategy old.deps
      × LevelsFit graph strategy old.nodep_deps
unfolding new_module
new_module_lem graph strategy key old m h =
    let (deps, p, h') =
      bind_ok (transform_deps dep_level_too_high graph strategy key old.deps) _ h in
    let (nodeps, q, h'') =
      bind_ok (transform_deps nodep_level_too_high graph strategy key old.nodep_deps) _ h' in
    let (same, fit) = transform_deps_lem dep_level_too_high graph strategy key old.deps deps p in
    let (same', fit') =
      transform_deps_lem nodep_level_too_high graph strategy key old.nodep_deps nodeps q in
    (cc (same, same', h''), fit, fit')

-- A round that finds a module.
pub record Found (w : Walker) (strategy : Strategy) (item : QueueItem) (s s' : WalkState)
    : Type 0 where
  pub old : Module
  pub in_graph : lookup item.key w.old_graph.modules ≡ some old
  pub deps_fit : LevelsFit w.old_graph strategy old.deps
  pub nodep_deps_fit : LevelsFit w.old_graph strategy old.nodep_deps
  pub by_name : Map Str ExistingModule
  pub visited :
      visit w item.key (resolved_module strategy item.key old) item.dependent s.module_by_name
      ≡ ok by_name
  pub result : s' ≡ add_module w item.key (resolved_module strategy item.key old) by_name s

-- A round that succeeds drops an unknown module, or adds a module.
pub process_cases :
    (w : Walker) (strategy : Strategy) (item : QueueItem) (s s' : WalkState)
    → process w strategy item s ≡ ok s'
    → ((lookup item.key w.old_graph.modules ≡ none) × (s' ≡ s)) ⊎ Found w strategy item s s'
unfolding process
process_cases w strategy item s s' h = elim (Option-cases (lookup item.key w.old_graph.modules)) [
  | inl e ↦ inl (e, let q : ok s ≡ ok s' = rw (e, process) at h in cc q)
  | inr (old, e) ↦
      let (m, p, h') =
        bind_ok (new_module w.old_graph strategy item.key old) _ (rw (e, process) at h) in
      let (b, q, h'') = bind_ok (visit w item.key m item.dependent s.module_by_name) _ h' in
      let (same, fit, fit') = new_module_lem w.old_graph strategy item.key old m p in
      inr (record {
        old = old;
        in_graph = e;
        deps_fit = fit;
        nodep_deps_fit = fit';
        by_name = b;
        visited = subst (λ x. visit w item.key x item.dependent s.module_by_name ≡ ok b) same q;
        result = subst (λ x. s' ≡ add_module w item.key x b s) same (cc h'');
      })
]
