-- ===== src/Graph/Shape.antt =====
-- The queries of graph/query.go that look at the nodes one by one.
use go_bzlmod.Prelude.{
  Bool, true, false, Str, Option, none, some, Option-cases, List, [], ◌∷◌, List-cases, ◌≡◌, ◌≢◌,
  refl, sym, ap, ◌∙◌, ◌↔◌, ◌⊎◌, inl, inr, ◌==◌, ==_cases, ==_iff, nat_eq, list_eq, Memᴰ,
  if◌then◌else◌,
}
use go_bzlmod.Prelude.Memᴰ
use go_bzlmod.Prelude.Maps.{Map, lookup, keys, IsMap, lookup_of_mem, mem_of_lookup}
use go_bzlmod.Selection.Types.{ModuleKey, key_eq}
use go_bzlmod.Graph.{Node, Graph, get, direct_deps, direct_dependents}

-- `GetByName`: the first node of the name that the loop meets.
unfoldable pub named_in : Str → Map ModuleKey Node → Option Node
named_in name [] = none
named_in name ((key, node) ∷ rest) = if key.name == name then some node else named_in name rest

abbrev pub get_by_name : Graph → Str → Option Node
get_by_name g name = named_in name g.modules

abbrev is_some {ℓ} : {A : Type ℓ} → Option A → Bool
is_some none = false
is_some (some _) = true

abbrev pub contains_name : Graph → Str → Bool
contains_name g name = is_some (get_by_name g name)

-- The keys of the nodes without edges of one kind.
unfoldable pub without_edges : (Node → List ModuleKey) → Map ModuleKey Node → List ModuleKey
without_edges edges [] = []
without_edges edges ((key, node) ∷ rest) =
    let others = without_edges edges rest in
    elim (edges node) [ [] ↦ key ∷ others | _ ∷ _ ↦ others ]

abbrev pub roots : Graph → List ModuleKey
roots g = without_edges (λ node. node.dependents) g.modules

abbrev pub leaves : Graph → List ModuleKey
leaves g = without_edges (λ node. node.dependencies) g.modules

Bare : (Node → List ModuleKey) → Map ModuleKey Node → ModuleKey → Type 0
Bare edges nodes k = (node : Node) × Memᴰ (k, node) nodes × (edges node ≡ [])

mem-without_edges :
    (edges : Node → List ModuleKey) (nodes : Map ModuleKey Node) (k : ModuleKey)
    → Memᴰ k (without_edges edges nodes) ↔ Bare edges nodes k
unfolding without_edges Bare
mem-without_edges edges [] k = (λ m. elim m [ ], λ (n, m, _). elim m [ ])
mem-without_edges edges ((j, node) ∷ rest) k = elim (List-cases (edges node)) [
  | inl e ↦
      rw (e, without_edges)
        (
          λ m. elim (Memᴰ.cases_cons m) [
            | inl p ↦ (node, Memᴰ.head (ap (λ x. pair x node) p), e)
            | inr t ↦ let (n, i, q) = (mem-without_edges edges rest k).0 t in (n, Memᴰ.tail i, q)
          ],
          λ (n, i, q). elim (Memᴰ.cases_cons i) [
            | inl p ↦ Memᴰ.head (ap (λ t. t.0) p)
            | inr t ↦ Memᴰ.tail ((mem-without_edges edges rest k).1 (n, t, q))
          ],
        )
  | inr (x, xs, e) ↦
      rw (e, without_edges)
        (
          λ m. let (n, i, q) = (mem-without_edges edges rest k).0 m in (n, Memᴰ.tail i, q),
          λ (n, i, q). elim (Memᴰ.cases_cons i) [
            | inl p ↦
                let same : n ≡ node = ap (λ t. t.1) p in
                absurd (let z : x ∷ xs ≡ [] = sym e ∙ ap edges (sym same) ∙ q in cc)
            | inr t ↦ (mem-without_edges edges rest k).1 (n, t, q)
          ],
        )
]
  where
    pair : ModuleKey → Node → ModuleKey × Node
    pair x n = (x, n)

edges_found :
    (edges : Node → List ModuleKey) (nodes : Map ModuleKey Node) (k : ModuleKey)
    → IsMap nodes
    → Memᴰ k (without_edges edges nodes)
      ↔ ((lookup k nodes ≢ none) × (elim (lookup k nodes) [ none ↦ [] | some n ↦ edges n ] ≡ []))
unfolding Bare
edges_found edges nodes k is_map = (
  λ m.
      let (n, i, q) = (mem-without_edges edges nodes k).0 m in
      let f : lookup k nodes ≡ some n = lookup_of_mem nodes is_map i in
      (
        λ e. (let z : none ≡ some n = sym e ∙ f in cc),
        ap (λ o. elim o [ none ↦ [] | some x ↦ edges x ]) f ∙ q,
      ),
  λ (has, e). elim (Option-cases (lookup k nodes)) [
    | inl f ↦ absurd (has f)
    | inr (n, f) ↦
        (mem-without_edges edges nodes k).1 (
          n,
          mem_of_lookup k nodes f,
          sym (ap (λ o. elim o [ none ↦ [] | some x ↦ edges x ]) f) ∙ e,
        )
  ],
)

-- The roots are the keys of the graph on which no module depends, and the leaves those that depend
-- on none, by the edges their nodes record. The keys of the graph are distinct, as those of a map.
pub roots-leaves_correct :
    (g : Graph) (k : ModuleKey)
    → IsMap g.modules
    → (Memᴰ k (roots g) ↔ ((get g k ≢ none) × (direct_dependents g k ≡ [])))
      × (Memᴰ k (leaves g) ↔ ((get g k ≢ none) × (direct_deps g k ≡ [])))
roots-leaves_correct g k is_map = (
  edges_found (λ n. n.dependents) g.modules k is_map,
  edges_found (λ n. n.dependencies) g.modules k is_map,
)

named_in_lem :
    (name : Str) (nodes : Map ModuleKey Node)
    → ((named_in name nodes ≡ none) × ((k : ModuleKey) → Memᴰ k (keys nodes) → k.name ≢ name))
      ⊎ ((node : Node) × (k : ModuleKey) × (named_in name nodes ≡ some node)
          × Memᴰ (k, node) nodes
          × (k.name ≡ name))
unfolding named_in
named_in_lem name [] = inl (refl, λ k m. elim m [ ])
named_in_lem name ((j, node) ∷ rest) = elim (==_cases j.name name) [
  | inl e ↦ inr (node, j, rw (named_in, (==_iff j.name name).1 e), Memᴰ.head refl, e)
  | inr (q, ne) ↦ elim (named_in_lem name rest) [
    | inl (e, f) ↦ inl (
      rw (named_in, q) e,
      λ k m. elim (Memᴰ.cases_cons m) [
        | inl p ↦ λ z. ne (sym (ap (λ x. x.name) p) ∙ z)
        | inr t ↦ f k t
      ],
    )
    | inr (n, k, e, m, p) ↦ inr (n, k, rw (named_in, q) e, Memᴰ.tail m, p)
  ]
]

-- The query by name returns a node of a key of that name, and nothing only if no key of the graph
-- has the name.
pub get_by_name_correct :
    (g : Graph) (name : Str)
    → ((get_by_name g name ≡ none) × ((k : ModuleKey) → Memᴰ k (keys g.modules) → k.name ≢ name))
      ⊎ ((node : Node) × (k : ModuleKey) × (get_by_name g name ≡ some node)
          × Memᴰ (k, node) g.modules
          × (k.name ≡ name))
get_by_name_correct g name = named_in_lem name g.modules
