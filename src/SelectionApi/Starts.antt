-- ===== src/SelectionApi/Starts.antt =====
-- Where the root of a resolution leads: its development and its production dependencies, from which
-- `buildResult` of selection_api.go computes the reachable keys.
use go_bzlmod.Prelude.{
  Bool, true, false, not, ◌&&◌, Bool-cases, Str, Option, none, some, Option-cases, List, [], ◌∷◌,
  map, contains, mem_of_contains, contains_of_mem, nat_eq, list_eq, ◌≡◌, ◌≢◌, refl, sym, ap, subst,
  ◌∙◌, ◌↔◌, ◌⊎◌, inl, inr, arith, Memᴰ,
}
use go_bzlmod.Prelude.Memᴰ
use go_bzlmod.Prelude.Maps.{Map, lookup}
use go_bzlmod.Selection.Types.{ModuleKey, key_eq, DepSpec, to_module_key, Module}
use go_bzlmod.Modules.{Dependency, ModuleInfo}
use go_bzlmod.SelectionApi.{
  prod_starts, dev_starts, root_names, starts_of, root_node, root_deps, dep_keys,
}
use go_bzlmod.SelectionApi.Reachable.{ReachedFrom, start, step}

first_true : (a b : Bool) → (a && b) ≡ true → a ≡ true
first_true a b h = ground arith

both_true : (a b : Bool) → a ≡ true → b ≡ false → (a && not b) ≡ true
both_true a b h k = ground arith

mem-map :
    (deps : List DepSpec) (key : ModuleKey)
    → Memᴰ key (map to_module_key deps)
    → (spec : DepSpec) × Memᴰ spec deps
      × (key ≡ record { name = spec.name; version = spec.version })
mem-map [] key m = elim m [ ]
mem-map (d ∷ deps) key m = elim (Memᴰ.cases_cons m) [
  | inl e ↦ (d, Memᴰ.head refl, e)
  | inr t ↦ let (s, n, e) = mem-map deps key t in (s, Memᴰ.tail n, e)
]

map-mem :
    (deps : List DepSpec) (spec : DepSpec)
    → Memᴰ spec deps
    → Memᴰ (to_module_key spec) (map to_module_key deps)
map-mem [] spec m = elim m [ ]
map-mem (d ∷ deps) spec m = elim (Memᴰ.cases_cons m) [
  | inl e ↦ Memᴰ.head (ap to_module_key e)
  | inr t ↦ Memᴰ.tail (map-mem deps spec t)
]

starts_of-mem :
    (p : Str → Bool) (deps : List DepSpec) (key : ModuleKey)
    → Memᴰ key (starts_of p deps)
    → (spec : DepSpec) × Memᴰ spec deps
      × (p spec.name ≡ true)
      × (key ≡ record { name = spec.name; version = spec.version })
unfolding starts_of
starts_of-mem p [] key m = elim m [ ]
starts_of-mem p (d ∷ deps) key m = elim (Bool-cases (p d.name)) [
  | inl q ↦ elim (Memᴰ.cases_cons (rw (q, starts_of) at m)) [
    | inl e ↦ (d, Memᴰ.head refl, q, e)
    | inr t ↦ let (s, n, h, e) = starts_of-mem p deps key t in (s, Memᴰ.tail n, h, e)
  ]
  | inr q ↦
      let (s, n, h, e) = starts_of-mem p deps key (rw (q, starts_of) at m) in (s, Memᴰ.tail n, h, e)
]

mem-starts_of :
    (p : Str → Bool) (deps : List DepSpec) (spec : DepSpec)
    → Memᴰ spec deps
    → p spec.name ≡ true
    → Memᴰ (to_module_key spec) (starts_of p deps)
unfolding starts_of
mem-starts_of p [] spec m h = elim m [ ]
mem-starts_of p (d ∷ deps) spec m h = elim (Memᴰ.cases_cons m) [
  | inl e ↦ rw (subst (λ x. p x.name ≡ true) e h, starts_of) (Memᴰ.head (ap to_module_key e))
  | inr t ↦ elim (Bool-cases (p d.name)) [
    | inl q ↦ rw (q, starts_of) (Memᴰ.tail (mem-starts_of p deps spec t h))
    | inr q ↦ rw (q, starts_of) (mem-starts_of p deps spec t h)
  ]
]

root_names_step :
    (dev : Bool) (d : Dependency) (deps : List Dependency)
    → ((d.dev_dependency ≡ dev) × (root_names dev (d ∷ deps) ≡ d.name ∷ root_names dev deps))
      ⊎ ((d.dev_dependency ≢ dev) × (root_names dev (d ∷ deps) ≡ root_names dev deps))
unfolding root_names
root_names_step true d deps = elim (Bool-cases d.dev_dependency) [
  | inl q ↦ inl (q, rw (q, root_names) refl)
  | inr q ↦ inr ((λ e. let z : false ≡ true = sym q ∙ e in cc), rw (q, root_names) refl)
]
root_names_step false d deps = elim (Bool-cases d.dev_dependency) [
  | inl q ↦ inr ((λ e. let z : true ≡ false = sym q ∙ e in cc), rw (q, root_names) refl)
  | inr q ↦ inl (q, rw (q, root_names) refl)
]

root_names-mem :
    (dev : Bool) (deps : List Dependency) {name : Str}
    → Memᴰ name (root_names dev deps)
    → (dep : Dependency) × Memᴰ dep deps × (dep.dev_dependency ≡ dev) × (name ≡ dep.name)
root_names-mem dev [] m = unfold root_names in elim m [ ]
root_names-mem dev (d ∷ deps) {name} m = elim (root_names_step dev d deps) [
  | inl (q, e) ↦ elim (Memᴰ.cases_cons (subst (Memᴰ name) e m)) [
    | inl p ↦ (d, Memᴰ.head refl, q, p)
    | inr t ↦ let (x, n, h, p) = root_names-mem dev deps t in (x, Memᴰ.tail n, h, p)
  ]
  | inr (q, e) ↦
      let (x, n, h, p) = root_names-mem dev deps (subst (Memᴰ name) e m) in (x, Memᴰ.tail n, h, p)
]

mem-root_names :
    (dev : Bool) (deps : List Dependency) (dep : Dependency)
    → Memᴰ dep deps
    → dep.dev_dependency ≡ dev
    → Memᴰ dep.name (root_names dev deps)
mem-root_names dev [] dep m h = elim m [ ]
mem-root_names dev (d ∷ deps) dep m h = elim (root_names_step dev d deps) [
  | inl (q, e) ↦ subst (Memᴰ dep.name) (sym e) (elim (Memᴰ.cases_cons m) [
    | inl p ↦ Memᴰ.head (ap (λ x. x.name) p)
    | inr t ↦ Memᴰ.tail (mem-root_names dev deps dep t h)
  ])
  | inr (q, e) ↦ subst (Memᴰ dep.name) (sym e) (elim (Memᴰ.cases_cons m) [
    | inl p ↦ absurd (q (ap (λ x. x.dev_dependency) (sym p) ∙ h))
    | inr t ↦ mem-root_names dev deps dep t h
  ])
]

module _ (graph : Map ModuleKey Module) (root_module : ModuleInfo) where
  -- A key that the root resolves one of its dependencies to, one for development or not.
  pub record IsStart (dev : Bool) (key : ModuleKey) : Type 0 where
    pub dep : Dependency
    pub declared : Memᴰ dep root_module.dependencies
    pub kind : dep.dev_dependency ≡ dev
    pub root : Module
    pub in_graph :
        lookup (record { name = root_module.name; version = root_module.version }) graph ≡ some root
    pub spec : DepSpec
    pub resolved : Memᴰ spec root.deps
    pub same_name : spec.name ≡ dep.name
    pub same_key : key ≡ record { name = spec.name; version = spec.version }

  -- The keys that the root's dependencies of that kind lead to.
  pub data LedTo (dev : Bool) : ModuleKey → Type 0 where
    from : {key : ModuleKey} → IsStart dev key → LedTo dev key
    along :
        {key requester : ModuleKey} (m : Module) (spec : DepSpec)
        → LedTo dev requester
        → lookup requester graph ≡ some m
        → Memᴰ spec m.deps
        → key ≡ record { name = spec.name; version = spec.version }
        → LedTo dev key

  -- A module is for development alone if the root's development dependencies lead to it, and its
  -- production dependencies do not.
  abbrev pub ForDev : ModuleKey → Type 0
  ForDev key = LedTo true key × ¬ LedTo false key

  dep_keys-spec :
      (found : Option Module) (key : ModuleKey)
      → Memᴰ key (dep_keys found)
      → (m : Module) × (found ≡ some m)
        × ((spec : DepSpec) × Memᴰ spec m.deps
            × (key ≡ record { name = spec.name; version = spec.version }))
  dep_keys-spec none key n = elim n [ ]
  dep_keys-spec (some m) key n = (m, refl, mem-map m.deps key n)

  starts_of-IsStart :
      (dev : Bool) (p : Str → Bool) (key : ModuleKey)
      → ((name : Str) → p name ≡ true → Memᴰ name (root_names dev root_module.dependencies))
      → Memᴰ key (starts_of p (root_node root_module graph))
      → IsStart dev key
  unfolding starts_of
  starts_of-IsStart dev p key names m =
      elim (Option-cases
        (lookup (record { name = root_module.name; version = root_module.version }) graph)) [
          | inl e ↦ absurd (Memᴰ.not-nil (rw (e, starts_of) at m))
          | inr (root, e) ↦
              let (spec, n, t, k) = starts_of-mem p root.deps key (rw e at m) in
              let (dep, d, h, same) =
                root_names-mem dev root_module.dependencies (names spec.name t) in
              record {
                dep = dep;
                declared = d;
                kind = h;
                root = root;
                in_graph = e;
                spec = spec;
                resolved = n;
                same_name = same;
                same_key = k;
              }
        ]

  IsStart-starts_of :
      (dev : Bool) (p : Str → Bool) (key : ModuleKey) (s : IsStart dev key)
      → p s.spec.name ≡ true
      → Memᴰ key (starts_of p (root_node root_module graph))
  IsStart-starts_of dev p key s h =
      subst (λ k. Memᴰ k (starts_of p (root_node root_module graph))) (sym s.same_key)
        (subst (λ x. Memᴰ (to_module_key s.spec) (starts_of p (root_deps x))) (sym s.in_graph)
          (mem-starts_of p s.root.deps s.spec s.resolved h))

  start-name :
      (dev : Bool) (key : ModuleKey) (s : IsStart dev key)
      → contains (root_names dev root_module.dependencies) s.spec.name ≡ true
  start-name dev key s = contains_of_mem (root_names dev root_module.dependencies) s.spec.name (
      subst (λ n. Memᴰ n (root_names dev root_module.dependencies)) (sym s.same_name)
        (mem-root_names dev root_module.dependencies s.dep s.declared s.kind))

  along_deps :
      {key requester : ModuleKey} (dev : Bool)
      → LedTo dev requester
      → Memᴰ key (dep_keys (lookup requester graph))
      → LedTo dev key
  along_deps {key} {requester} dev l m =
      let (w, e, (spec, n, k)) = dep_keys-spec (lookup requester graph) key m in
      along w spec l e n k

  step_along :
      {starts : List ModuleKey} {key requester : ModuleKey} (m : Module) (spec : DepSpec)
      → ReachedFrom graph starts requester
      → lookup requester graph ≡ some m
      → Memᴰ spec m.deps
      → key ≡ record { name = spec.name; version = spec.version }
      → ReachedFrom graph starts key
  step_along {starts} {key} {requester} m spec r e n k = step r (
      subst (λ x. Memᴰ key (dep_keys x)) (sym e)
        (subst (λ x. Memᴰ x (map to_module_key m.deps)) (sym k) (map-mem m.deps spec n)))

  prod_LedTo :
      {key : ModuleKey} → ReachedFrom graph (prod_starts root_module graph) key → LedTo false key
  prod_LedTo {key} (start m) =
      from (starts_of-IsStart false _ key (λ name h. mem_of_contains _ name h) m)
  prod_LedTo {key} (step r m) = along_deps false (prod_LedTo r) m

  LedTo_prod :
      {key : ModuleKey} → LedTo false key → ReachedFrom graph (prod_starts root_module graph) key
  LedTo_prod {key} (from s) = start (IsStart-starts_of false _ key s (start-name false key s))
  LedTo_prod (along m spec l e n k) = step_along m spec (LedTo_prod l) e n k

  dev_LedTo :
      {key : ModuleKey} → ReachedFrom graph (dev_starts root_module graph) key → LedTo true key
  dev_LedTo {key} (start m) =
      from (starts_of-IsStart true _ key (λ name h. mem_of_contains _ name (first_true _ _ h)) m)
  dev_LedTo {key} (step r m) = along_deps true (dev_LedTo r) m

  -- A start that is also a production dependency's makes the key one that these lead to.
  LedTo_dev :
      {key : ModuleKey}
      → LedTo true key
      → ReachedFrom graph (dev_starts root_module graph) key
        ⊎ ReachedFrom graph (prod_starts root_module graph) key
  LedTo_dev {key} (from s) =
      elim (Bool-cases (contains (root_names false root_module.dependencies) s.spec.name)) [
        | inl h ↦ inr (start (IsStart-starts_of true _ key s h))
        | inr h ↦
            inl (start (IsStart-starts_of true _ key s (both_true _ _ (start-name true key s) h)))
      ]
  LedTo_dev (along m spec l e n k) = elim (LedTo_dev l) [
    | inl r ↦ inl (step_along m spec r e n k)
    | inr r ↦ inr (step_along m spec r e n k)
  ]

  pub ForDev_lem :
      (key : ModuleKey)
      → (ReachedFrom graph (dev_starts root_module graph) key
          × ¬ ReachedFrom graph (prod_starts root_module graph) key)
        ↔ ForDev key
  ForDev_lem key = (
    λ (r, n). (dev_LedTo r, λ l. n (LedTo_prod l)),
    λ (l, n). elim (LedTo_dev l) [
      | inl r ↦ (r, λ q. n (prod_LedTo q))
      | inr r ↦ absurd (n (prod_LedTo r))
    ],
  )
