-- ===== src/Graph/Builder/Links.antt =====
-- The second passes of graph/builder.go: a node's dependents are the nodes that depend on it.
use go_bzlmod.Prelude.{
  Option, none, some, Option-cases, List, [], ◌∷◌, ◌++◌, ◌≡◌, ◌≢◌, refl, sym, ap, subst, ◌∙◌, ◌↔◌,
  ◌⊎◌, inl, inr, ⊎_elim, ==_cases, ==_iff, ◌==◌, false, Memᴰ,
}
use go_bzlmod.Prelude.Memᴰ
use go_bzlmod.Prelude.Maps.{Map, lookup, insert, lookup-insert}
use go_bzlmod.Selection.Types.{ModuleKey, key_eq}
use go_bzlmod.Graph.{Node}
use go_bzlmod.Graph.Builder.{link_deps, link_nodes}

abbrev pub edges_in : (Node → List ModuleKey) → Map ModuleKey Node → ModuleKey → List ModuleKey
edges_in f nodes k = elim (lookup k nodes) [ none ↦ [] | some node ↦ f node ]

edges_of_lookup :
    (f : Node → List ModuleKey) (m : Map ModuleKey Node) (k : ModuleKey) {o : Option Node}
    → lookup k m ≡ o
    → edges_in f m k ≡ elim o [ none ↦ [] | some n ↦ f n ]
edges_of_lookup f m k e = ap (λ x. elim x [ none ↦ [] | some n ↦ f n ]) e

lookup_same :
    (dep k : ModuleKey) (n : Node) (m : Map ModuleKey Node)
    → dep ≡ k
    → lookup k (insert dep n m) ≡ some n
lookup_same dep k n m e = rw (lookup-insert dep k n m, (==_iff dep k).1 e)

lookup_other :
    (dep k : ModuleKey) (n : Node) (m : Map ModuleKey Node)
    → dep == k ≡ false
    → lookup k (insert dep n m) ≡ lookup k m
lookup_other dep k n m q = rw (lookup-insert dep k n m, q)

edges_same :
    (f : Node → List ModuleKey) (dep k : ModuleKey) (n : Node) (m : Map ModuleKey Node)
    → dep ≡ k
    → edges_in f (insert dep n m) k ≡ f n
edges_same f dep k n m e = edges_of_lookup f (insert dep n m) k (lookup_same dep k n m e)

edges_other :
    (f : Node → List ModuleKey) (dep k : ModuleKey) (n : Node) (m : Map ModuleKey Node)
    → dep == k ≡ false
    → edges_in f (insert dep n m) k ≡ edges_in f m k
edges_other f dep k n m q = edges_of_lookup f (insert dep n m) k (lookup_other dep k n m q)

abbrev pub dependencies_in : Map ModuleKey Node → ModuleKey → List ModuleKey
dependencies_in = edges_in (λ n. n.dependencies)

abbrev pub dependents_in : Map ModuleKey Node → ModuleKey → List ModuleKey
dependents_in = edges_in (λ n. n.dependents)

-- A key that the map has.
abbrev pub Has : Map ModuleKey Node → ModuleKey → Type 0
Has nodes k = lookup k nodes ≢ none

-- An update of the node of a dependency that adds the dependent, and keeps the dependencies.
pub record Adds (update : ModuleKey → ModuleKey → Node → Node) : Type 0 where
  pub dependents :
      (key dep : ModuleKey) (n : Node) → (update key dep n).dependents ≡ n.dependents ++ key ∷ []
  pub dependencies :
      (key dep : ModuleKey) (n : Node) → (update key dep n).dependencies ≡ n.dependencies

-- What nodes `after` have over nodes `before`: the dependents that `New` tells.
pub record Linked (New : ModuleKey → ModuleKey → Type 0) (before after : Map ModuleKey Node)
    : Type 0 where
  pub same_deps : (k : ModuleKey) → dependencies_in after k ≡ dependencies_in before k
  pub same_keys : (k : ModuleKey) → (lookup k after ≡ none) ↔ (lookup k before ≡ none)
  pub new_dependents :
      (k p : ModuleKey)
      → Memᴰ p (dependents_in after k)
        ↔ (Memᴰ p (dependents_in before k) ⊎ (New p k × Has before k))

Linked-refl :
    {New : ModuleKey → ModuleKey → Type 0} (m : Map ModuleKey Node)
    → ((p k : ModuleKey) → ¬ New p k)
    → Linked New m m
Linked-refl m h = record {
  same_deps = λ k. refl;
  same_keys = λ k. (λ e. e, λ e. e);
  new_dependents = λ k p. (inl, λ s. elim s [ inl a ↦ a | inr (n, _) ↦ absurd (h p k n) ]);
}

Linked-trans :
    {P Q R : ModuleKey → ModuleKey → Type 0} {a b c : Map ModuleKey Node}
    → ((p k : ModuleKey) → R p k ↔ (P p k ⊎ Q p k))
    → Linked P a b
    → Linked Q b c
    → Linked R a c
Linked-trans s f g = record {
  same_deps = λ k. g.same_deps k ∙ f.same_deps k;
  same_keys = λ k.
      (λ e. (f.same_keys k).0 ((g.same_keys k).0 e), λ e. (g.same_keys k).1 ((f.same_keys k).1 e));
  new_dependents = λ k p. (
    λ m. elim ((g.new_dependents k p).0 m) [
      | inl n ↦ elim ((f.new_dependents k p).0 n) [
        | inl o ↦ inl o
        | inr (x, h) ↦ inr ((s p k).1 (inl x), h)
      ]
      | inr (x, h) ↦ inr ((s p k).1 (inr x), λ e. h ((f.same_keys k).1 e))
    ],
    λ m. (g.new_dependents k p).1 (elim m [
      | inl o ↦ inl ((f.new_dependents k p).1 (inl o))
      | inr (x, h) ↦ elim ((s p k).0 x) [
        | inl y ↦ inl ((f.new_dependents k p).1 (inr (y, h)))
        | inr y ↦ inr (y, λ e. h ((f.same_keys k).0 e))
      ]
    ]),
  );
}

module _ (update : ModuleKey → ModuleKey → Node → Node) (adds : Adds update) where
  link_found :
      (key dep : ModuleKey) (m : Map ModuleKey Node) (n : Node)
      → lookup dep m ≡ some n
      → Linked (λ p k. (p ≡ key) × (k ≡ dep)) m (insert dep (update key dep n) m)
  link_found key dep m n h =
      let n' : Node = update key dep n in
      let found : (k : ModuleKey) → dep ≡ k → lookup k m ≡ some n =
        λ k e. ap (λ x. lookup x m) (sym e) ∙ h in
      record {
        same_deps = λ k. elim (==_cases dep k) [
          | inl e ↦
              edges_same (λ x. x.dependencies) dep k n' m e
              ∙ adds.dependencies key dep n
              ∙ sym (edges_of_lookup (λ x. x.dependencies) m k (found k e))
          | inr (q, _) ↦ edges_other (λ x. x.dependencies) dep k n' m q
        ];
        same_keys = λ k. elim (==_cases dep k) [
          | inl e ↦ (
            λ i. absurd (let j : some n' ≡ none = sym (lookup_same dep k n' m e) ∙ i in cc),
            λ i. absurd (let j : some n ≡ none = sym (found k e) ∙ i in cc),
          )
          | inr (q, _) ↦
              (λ i. sym (lookup_other dep k n' m q) ∙ i, λ i. lookup_other dep k n' m q ∙ i)
        ];
        new_dependents = λ k p. elim (==_cases dep k) [
          | inl e ↦
              let after : dependents_in (insert dep n' m) k ≡ n.dependents ++ key ∷ [] =
                edges_same (λ x. x.dependents) dep k n' m e ∙ adds.dependents key dep n in
              let before : dependents_in m k ≡ n.dependents =
                edges_of_lookup (λ x. x.dependents) m k (found k e) in
              (
                λ i. elim (Memᴰ.append_cases n.dependents (subst (Memᴰ p) after i)) [
                  | inl j ↦ inl (subst (Memᴰ p) (sym before) j)
                  | inr j ↦ inr (
                    (Memᴰ.eq_of_singleton j, sym e),
                    λ z. let y : some n ≡ none = sym (found k e) ∙ z in cc,
                  )
                ],
                λ s. subst (Memᴰ p) (sym after) (elim s [
                  | inl j ↦ Memᴰ.append_left (key ∷ []) (subst (Memᴰ p) before j)
                  | inr ((j, _), _) ↦ Memᴰ.append_right n.dependents (Memᴰ.head j)
                ]),
              )
          | inr (q, ne) ↦
              let same : dependents_in (insert dep n' m) k ≡ dependents_in m k =
                edges_other (λ x. x.dependents) dep k n' m q in
              (
                λ i. inl (subst (Memᴰ p) same i),
                λ s. elim s [
                  | inl a ↦ subst (Memᴰ p) (sym same) a
                  | inr ((_, e), _) ↦ absurd (ne (sym e))
                ],
              )
        ];
      }

  -- One dependency of `key`.
  link_one :
      (key dep : ModuleKey) (m : Map ModuleKey Node)
      → Linked
          (λ p k. (p ≡ key) × (k ≡ dep))
          m
          (elim (lookup dep m) [ none ↦ m | some n ↦ insert dep (update key dep n) m ])
  link_one key dep m = elim (Option-cases (lookup dep m)) [
    | inl h ↦ rw h (record {
      same_deps = λ k. refl;
      same_keys = λ k. (λ e. e, λ e. e);
      new_dependents = λ k p. (
        inl,
        λ s. elim s [ inl a ↦ a | inr ((_, e), has) ↦ absurd (has (ap (λ x. lookup x m) e ∙ h)) ],
      );
    })
    | inr (n, h) ↦ rw h (link_found key dep m n h)
  ]

  link_deps-Linked :
      (key : ModuleKey) (deps : List ModuleKey) (m : Map ModuleKey Node)
      → Linked (λ p k. (p ≡ key) × Memᴰ k deps) m (link_deps update key deps m)
  unfolding link_deps
  link_deps-Linked key [] m = Linked-refl m (λ p k n. elim n.1 [ ])
  link_deps-Linked key (dep ∷ deps) m =
      Linked-trans
        (λ p k. (
          λ (e, i). ⊎_elim (λ j. inl (e, j)) (λ j. inr (e, j)) (Memᴰ.cases_cons i),
          λ s. elim s [ inl (e, j) ↦ (e, Memᴰ.head j) | inr (e, j) ↦ (e, Memᴰ.tail j) ],
        ))
        (link_one key dep m) (link_deps-Linked key deps _)

  -- The nodes that the second pass ranges over.
  abbrev Edge : Map ModuleKey Node → ModuleKey → ModuleKey → Type 0
  Edge nodes p k = (n : Node) × Memᴰ (p, n) nodes × Memᴰ k n.dependencies

  pub link_nodes-Linked :
      (nodes m : Map ModuleKey Node) → Linked (Edge nodes) m (link_nodes update nodes m)
  unfolding link_nodes
  link_nodes-Linked [] m = Linked-refl m (λ p k (n, i, _). elim i [ ])
  link_nodes-Linked ((key, node) ∷ rest) m =
      Linked-trans
        (λ p k. (
          λ (n, i, j). elim (Memᴰ.cases_cons i) [
            | inl e ↦
                let same : n ≡ node = ap (λ t. t.1) e in
                inl (ap (λ t. t.0) e, subst (λ x. Memᴰ k x.dependencies) same j)
            | inr t ↦ inr (n, t, j)
          ],
          λ s. elim s [
            | inl (e, j) ↦ (node, Memᴰ.head (pair e), j)
            | inr (n, i, j) ↦ (n, Memᴰ.tail i, j)
          ],
        ))
        (link_deps-Linked key node.dependencies m) (link_nodes-Linked rest _)
    where
      pair : {p : ModuleKey} → p ≡ key → ◌≡◌ {A = ModuleKey × Node} (p, node) (key, node)
      pair e = ap (λ x. (x, node)) e
