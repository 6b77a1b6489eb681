-- ===== src/Selection/Walker/Ends.antt =====
-- The loop of `walk` in selection/selection.go ends: the fuel of the model is enough.
use mathlib.Core.List.Memᴰ
use mathlib.Core.List.{map-append}
use go_bzlmod.Prelude.{
  ℕ, zero, suc, ◌≤◌, Str, Option, some, List, [], ◌∷◌, ◌++◌, map, List-cases, Bool-cases,
  Option-cases, length, length-map, ◌≡◌, ◌≢◌, ap, subst, ◌∙◌, inl, inr, arith, Memᴰ, Result, ok,
  err, Result-cases, ◌>>=◌,
}
use go_bzlmod.Prelude.Int.{ℤ}
use go_bzlmod.Prelude.Maps.{Map, lookup, mem_of_lookup}
use go_bzlmod.Selection.Types.{
  ModuleKey, key_eq, DepSpec, to_module_key, Module, DepGraph, SelectionError, out_of_fuel,
  dep_level_too_high, nodep_level_too_high,
}
use go_bzlmod.Selection.Strategies.{Strategy}
use go_bzlmod.Selection.Walker.{
  Walker, ExistingModule, QueueItem, WalkState, resolve, all_deps, process, walk_loop, walk, start,
  followed, transform_deps, new_module, visit, excessive_level,
}
use go_bzlmod.Selection.Walker.Deps.{resolved_module, process_cases}
use go_bzlmod.Selection.Walker.Invariant.{popped}
use go_bzlmod.Selection.Walker.Queue.{
  dep_keys, measure, measure-enqueue, frontier-add_module, unknown,
}

-- The keys that the dependencies of the graph resolve to.
abbrev pub resolved_keys : Strategy → Map ModuleKey Module → List ModuleKey
resolved_keys strategy modules = dep_keys (map (resolve strategy) (all_deps modules))

mem-all_deps :
    (modules : Map ModuleKey Module) (k : ModuleKey) (m : Module) (d : DepSpec)
    → Memᴰ (k, m) modules
    → Memᴰ d (m.deps ++ m.nodep_deps)
    → Memᴰ d (all_deps modules)
mem-all_deps [] k m d h n = elim h [ ]
mem-all_deps ((j, o) ∷ modules) k m d h n = elim (Memᴰ.cases_cons h) [
  | inl e ↦
      Memᴰ.append_left (all_deps modules)
        (subst (λ (t : ModuleKey × Module). Memᴰ d (t.1.deps ++ t.1.nodep_deps)) e n)
  | inr t ↦ Memᴰ.append_right (o.deps ++ o.nodep_deps) (mem-all_deps modules k m d t n)
]

mem-followed :
    (w : Walker) (strategy : Strategy) (k : ModuleKey) (old : Module) (d : DepSpec)
    → Memᴰ d (followed w (resolved_module strategy k old))
    → Memᴰ d (map (resolve strategy) (old.deps ++ old.nodep_deps))
mem-followed w strategy k old d m = rw map-append (elim (Bool-cases w.ignore_nodep_deps) [
  | inl e ↦ Memᴰ.append_left (map (resolve strategy) old.nodep_deps) (rw e at m)
  | inr e ↦ rw e at m
])

-- What a module's dependencies resolve to is among the keys of the graph's dependencies.
followed_inside :
    (w : Walker) (strategy : Strategy) (k : ModuleKey) (old : Module)
    → lookup k w.old_graph.modules ≡ some old
    → (j : ModuleKey) → Memᴰ j (dep_keys (followed w (resolved_module strategy k old)))
    → Memᴰ j (resolved_keys strategy w.old_graph.modules)
followed_inside w strategy k old e j m =
    let (d', n, p) = Memᴰ.of_map to_module_key (followed w (resolved_module strategy k old)) m in
    let (d, n', q) =
      Memᴰ.of_map (resolve strategy) (old.deps ++ old.nodep_deps)
        (mem-followed w strategy k old d' n) in
    subst (λ x. Memᴰ x (resolved_keys strategy w.old_graph.modules)) (ap to_module_key q ∙ p)
      (Memᴰ.map to_module_key (
        Memᴰ.map (resolve strategy)
          (mem-all_deps w.old_graph.modules k old d (mem_of_lookup k w.old_graph.modules e) n')))

-- No part of a round runs out of fuel.
transform_deps-ne-out_of_fuel :
    (too_high : ModuleKey → DepSpec → Str → ℤ → SelectionError) (graph : DepGraph)
    (strategy : Strategy) (key : ModuleKey) (deps : List DepSpec)
    → ((d : DepSpec) (v : Str) (l : ℤ) → too_high key d v l ≢ out_of_fuel)
    → transform_deps too_high graph strategy key deps ≢ err out_of_fuel
unfolding transform_deps
transform_deps-ne-out_of_fuel too_high graph strategy key [] h = λ e. cc
transform_deps-ne-out_of_fuel too_high graph strategy key (d ∷ deps) h =
    elim (Option-cases (excessive_level graph strategy d)) [
      | inr (level, e) ↦ λ p. h d (strategy d) level (let q = rw (e, transform_deps) at p in cc q)
      | inl e ↦
          λ p. ground (arith, transform_deps-ne-out_of_fuel too_high graph strategy key deps h)
    ]

visit-ne-out_of_fuel :
    (w : Walker) (key : ModuleKey) (m : Module) (from : Option ModuleKey)
    (by_name : Map Str ExistingModule)
    → visit w key m from by_name ≢ err out_of_fuel
unfolding visit
visit-ne-out_of_fuel w key m from by_name = λ e. ground arith

pub bind-ne-err {ℓ κ μ} :
    {E : Type ℓ} {A : Type κ} {B : Type μ} (r : Result E A) (f : A → Result E B) (e : E)
    → r ≢ err e
    → ((a : A) → f a ≢ err e)
    → (r >>= f) ≢ err e
bind-ne-err (ok a) f e h k = k a
bind-ne-err (err d) f e h k = λ p. h (cc p)

process-ne-out_of_fuel :
    (w : Walker) (strategy : Strategy) (item : QueueItem) (s : WalkState)
    → process w strategy item s ≢ err out_of_fuel
unfolding process new_module
process-ne-out_of_fuel w strategy item s =
    elim (Option-cases (lookup item.key w.old_graph.modules)) [
      | inl e ↦ λ p. let q = rw (e, process) at p in cc q
      | inr (old, e) ↦
          rw (e, process)
            (bind-ne-err (new_module w.old_graph strategy item.key old) _ out_of_fuel
              (bind-ne-err _ _ out_of_fuel
                (transform_deps-ne-out_of_fuel dep_level_too_high w.old_graph strategy item.key
                  old.deps (λ d v l p. cc p))
                (λ deps.
                  bind-ne-err _ _ out_of_fuel
                    (transform_deps-ne-out_of_fuel nodep_level_too_high w.old_graph strategy
                      item.key old.nodep_deps (λ d v l p. cc p))
                    (λ nodep_deps p. cc p)))
              (λ m.
                bind-ne-err _ _ out_of_fuel
                  (visit-ne-out_of_fuel w item.key m item.dependent s.module_by_name)
                  (λ b p. cc p)))
    ]

-- A round that succeeds lowers the measure.
process-measure :
    (w : Walker) (strategy : Strategy) (s s' : WalkState) (item : QueueItem) (rest : List QueueItem)
    → s.queue ≡ item ∷ rest
    → process w strategy item (popped s rest) ≡ ok s'
    → suc (measure (resolved_keys strategy w.old_graph.modules) s'.frontier)
      ≤ measure (resolved_keys strategy w.old_graph.modules) s.frontier
process-measure w strategy s s' item rest q e =
    let us = resolved_keys strategy w.old_graph.modules in
    elim (process_cases w strategy item (popped s rest) s' e) [
      | inl (_, same) ↦ omega (arith, ap (λ x. measure us x.frontier) same, ap length q)
      | inr f ↦ omega (
        arith,
        ap (λ x. measure us x.frontier) f.result,
        ap (λ x. measure us x)
            (frontier-add_module w item.key (resolved_module strategy item.key f.old) f.by_name
              (popped s rest)),
        measure-enqueue us item.key (followed w (resolved_module strategy item.key f.old))
            (popped s rest).frontier (followed_inside w strategy item.key f.old f.in_graph),
        ap length q,
      )
    ]

walk_loop_ends :
    (w : Walker) (strategy : Strategy) (fuel : ℕ) (s : WalkState)
    → measure (resolved_keys strategy w.old_graph.modules) s.frontier ≤ fuel
    → walk_loop w strategy fuel s ≢ err out_of_fuel
unfolding walk_loop
walk_loop_ends w strategy zero s h = elim (List-cases s.queue) [
  | inl empty ↦ rw (empty, walk_loop) (λ p. cc p)
  | inr (item, rest, q) ↦ absurd (omega (arith, ap length q))
]
walk_loop_ends w strategy (suc fuel) s h = elim (List-cases s.queue) [
  | inl empty ↦ rw (empty, walk_loop) (λ p. cc p)
  | inr (item, rest, q) ↦
      rw (q, walk_loop)
        (elim (Result-cases (process w strategy item (popped s rest))) [
          | inr (f, e) ↦
              rw e (λ p. process-ne-out_of_fuel w strategy item (popped s rest) (e ∙ cc p))
          | inl (s', e) ↦ rw e (
              walk_loop_ends w strategy fuel s'
                (omega (arith, process-measure w strategy s s' item rest q e)))
        ])
]

unknown-le-length : (us known : List ModuleKey) → unknown us known ≤ length us
unknown-le-length [] known = omega arith
unknown-le-length (u ∷ us) known = ground (arith, unknown-le-length us known)

-- The walk never runs out of fuel: it returns a graph or one of the source's errors.
pub walk_terminates : (w : Walker) (strategy : Strategy) → walk w strategy ≢ err out_of_fuel
unfolding walk
walk_terminates w strategy = walk_loop_ends w strategy _ (start w.old_graph) (
    omega (
      arith,
      unknown-le-length (resolved_keys strategy w.old_graph.modules) (w.old_graph.root_key ∷ []),
      length-map to_module_key (map (resolve strategy) (all_deps w.old_graph.modules)),
      length-map (resolve strategy) (all_deps w.old_graph.modules),
    ))
