-- ===== src/Graph/Closure.antt =====
-- `TransitiveDeps` and `TransitiveDependents` of graph/query.go find exactly what a key leads to.
use go_bzlmod.Prelude.{some, Option-cases, List, [], ◌∷◌, ◌≡◌, ap, subst, inl, inr, Memᴰ, arith}
use go_bzlmod.Prelude.Memᴰ
use go_bzlmod.Prelude.Maps.{Map, lookup, mem_of_lookup}
use go_bzlmod.Selection.Types.{ModuleKey, key_eq}
use go_bzlmod.Graph.{
  Node, Graph, get, direct_deps, direct_dependents, all_edges, transitive_deps,
  transitive_dependents,
}
use go_bzlmod.Graph.Searching.{IsClosure, search_correct}

mem-all_edges :
    (edges : Node → List ModuleKey) (m : Map ModuleKey Node) (k j : ModuleKey) (node : Node)
    → lookup k m ≡ some node
    → Memᴰ j (edges node)
    → Memᴰ j (all_edges edges m)
mem-all_edges edges m k j node h n = among m (mem_of_lookup k m h)
  where
    among : (m : Map ModuleKey Node) → Memᴰ (k, node) m → Memᴰ j (all_edges edges m)
    among [] i = elim i [ ]
    among ((q, other) ∷ rest) i = elim (Memᴰ.cases_cons i) [
      | inl p ↦
          let same : node ≡ other = ap (λ t. t.1) p in
          Memᴰ.append_left (all_edges edges rest) (subst (λ x. Memᴰ j (edges x)) same n)
      | inr t ↦ Memᴰ.append_right (edges other) (among rest t)
    ]

module _ (g : Graph) (key : ModuleKey) where
  -- The search for dependencies always ends, and finds each key other than the first that the
  -- first one leads to along dependencies, once, and no other key.
  pub transitive_deps_correct :
      (found : List ModuleKey) × (transitive_deps g key ≡ some found)
      × IsClosure (direct_deps g) key found
  unfolding transitive_deps
  transitive_deps_correct =
      search_correct (direct_deps g) key (all_edges (λ node. node.dependencies) g.modules)
        (λ k j m. elim (Option-cases (get g k)) [
          | inl h ↦ absurd (Memᴰ.not-nil (rw (h, direct_deps) at m))
          | inr (node, h) ↦
              mem-all_edges (λ n. n.dependencies) g.modules k j node h (rw (h, direct_deps) at m)
        ])
        _ (omega arith)

  -- The same of the search for dependents, along the edges to dependents.
  pub transitive_dependents_correct :
      (found : List ModuleKey) × (transitive_dependents g key ≡ some found)
      × IsClosure (direct_dependents g) key found
  unfolding transitive_dependents
  transitive_dependents_correct =
      search_correct (direct_dependents g) key (all_edges (λ node. node.dependents) g.modules)
        (λ k j m. elim (Option-cases (get g k)) [
          | inl h ↦ absurd (Memᴰ.not-nil (rw (h, direct_dependents) at m))
          | inr (node, h) ↦
              mem-all_edges (λ n. n.dependents) g.modules k j node h
                (rw (h, direct_dependents) at m)
        ])
        _ (omega arith)
