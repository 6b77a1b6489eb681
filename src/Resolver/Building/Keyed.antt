-- ===== src/Resolver/Building/Keyed.antt =====
-- The graph of requests that resolver.go builds: one entry for each name, every request under its
-- version, and no name without requests.
use go_bzlmod.Prelude.{
  Bool, Bool-cases, Str, Option, none, some, Option-cases, [], ◌∷◌, List-cases, if◌then◌else◌, ◌==◌,
  ==_iff, ==_cases, ◌≡◌, ◌≢◌, refl, sym, ap, subst, ◌∙◌, inl, inr, Memᴰ, nat_eq, list_eq,
}
use go_bzlmod.Prelude.Memᴰ
use go_bzlmod.Prelude.Maps.{Map, lookup, insert, delete, lookup-insert, keys, IsMap, insert-IsMap}
use go_bzlmod.Resolver.{
  DepRequest, DepRequests, versions_of, merged_request, add_request, remove_dependency,
}
use go_bzlmod.Resolver.Mvs.{IsKeyed}
use go_bzlmod.Resolver.Building.{Inputs, nodep_request, add_nodep_request}

-- The invariant of the graph of requests.
pub record IsProper (graph : DepRequests) : Type 0 where
  pub one_entry : IsMap graph
  pub keyed : IsKeyed graph
  pub requested :
      (name : Str) (versions : Map Str DepRequest)
      → lookup name graph ≡ some versions
      → versions ≢ []

unfoldable pub Keyed : Map Str DepRequest → Type 0
Keyed versions = (v : Str) (r : DepRequest) → lookup v versions ≡ some r → r.version ≡ v

insert-ne-nil : (v : Str) (r : DepRequest) (m : Map Str DepRequest) → insert v r m ≢ []
insert-ne-nil v r [] e = cc
insert-ne-nil v r ((k, q) ∷ m) e = elim (Bool-cases (k == v)) [
  | inl h ↦ (let z : (k, r) ∷ m ≡ [] = rw h at e in cc)
  | inr h ↦ (let z : (k, q) ∷ insert v r m ≡ [] = rw h at e in cc)
]

-- New requests for a name.
insert-IsProper :
    (graph : DepRequests) (name : Str) (versions : Map Str DepRequest)
    → IsProper graph
    → Keyed versions
    → versions ≢ []
    → IsProper (insert name versions graph)
unfolding Keyed
insert-IsProper graph name versions p k n = record {
  one_entry = insert-IsMap name versions graph p.one_entry;
  keyed = λ other vs v r h g. elim (==_cases name other) [
    | inl e ↦
        let q : some versions ≡ some vs =
          sym (lookup-insert name other versions graph ∙ rw ((==_iff name other).1 e)) ∙ h in
        let c : versions ≡ vs = cc in k v r (ap (lookup v) c ∙ g)
    | inr (q, _) ↦ p.keyed other vs v r (sym (lookup-insert name other versions graph ∙ rw q) ∙ h) g
  ];
  requested = λ other vs h e. elim (==_cases name other) [
    | inl q ↦
        let x : some versions ≡ some vs =
          sym (lookup-insert name other versions graph ∙ rw ((==_iff name other).1 q)) ∙ h in
        let c : versions ≡ vs = cc in n (c ∙ e)
    | inr (q, _) ↦ p.requested other vs (sym (lookup-insert name other versions graph ∙ rw q) ∙ h) e
  ];
}

versions_of-Keyed :
    (graph : DepRequests) (name : Str) → IsProper graph → Keyed (versions_of (lookup name graph))
unfolding Keyed
versions_of-Keyed graph name p v r h = elim (Option-cases (lookup name graph)) [
  | inl e ↦ absurd (let z : none ≡ some r = rw e at h in cc)
  | inr (vs, e) ↦ p.keyed name vs v r e (subst (λ x. lookup v (versions_of x) ≡ some r) e h)
]

pub insert-Keyed :
    (versions : Map Str DepRequest) (v : Str) (r : DepRequest)
    → Keyed versions
    → r.version ≡ v
    → Keyed (insert v r versions)
unfolding Keyed
insert-Keyed versions v r k e u q h = elim (==_cases v u) [
  | inl p ↦
      let x : some r ≡ some q = sym (lookup-insert v u r versions ∙ rw ((==_iff v u).1 p)) ∙ h in
      let c : r ≡ q = cc in ap (λ y. y.version) (sym c) ∙ e ∙ p
  | inr (p, _) ↦ k u q (sym (lookup-insert v u r versions ∙ rw p) ∙ h)
]

version-merged_request :
    (version : Str) (dev : Bool) (requester : Str) (o : Option DepRequest)
    → ((r : DepRequest) → o ≡ some r → r.version ≡ version)
    → (merged_request version dev requester o).version ≡ version
version-merged_request version dev requester none h = refl
version-merged_request version dev requester (some r) h = h r refl

version-nodep_request :
    {Error : Type 0} (w : Inputs Error) (version : Str) (dev : Bool) (requester : Str)
    (o : Option DepRequest)
    → ((r : DepRequest) → o ≡ some r → r.version ≡ version)
    → (nodep_request w version dev requester o).version ≡ version
version-nodep_request w version dev requester none h = refl
version-nodep_request w version dev requester (some r) h = h r refl

pub add_request-IsProper :
    (name version : Str) (dev : Bool) (requester : Str) (graph : DepRequests)
    → IsProper graph
    → IsProper (add_request name version dev requester graph)
unfolding add_request Keyed
add_request-IsProper name version dev requester graph p =
    let versions : Map Str DepRequest = versions_of (lookup name graph) in
    let r : DepRequest = merged_request version dev requester (lookup version versions) in
    insert-IsProper graph name (insert version r versions) p
      (insert-Keyed versions version r (versions_of-Keyed graph name p) (
        version-merged_request version dev requester (lookup version versions)
          (λ q e. versions_of-Keyed graph name p version q e)))
      (insert-ne-nil version r versions)

pub add_nodep_request-IsProper :
    {Error : Type 0} (w : Inputs Error) (name version : Str) (dev : Bool) (requester : Str)
    (graph : DepRequests)
    → IsProper graph
    → IsProper (add_nodep_request w name version dev requester graph)
unfolding add_nodep_request Keyed
add_nodep_request-IsProper w name version dev requester graph p =
    let versions : Map Str DepRequest = versions_of (lookup name graph) in
    let r : DepRequest = nodep_request w version dev requester (lookup version versions) in
    insert-IsProper graph name (insert version r versions) p
      (insert-Keyed versions version r (versions_of-Keyed graph name p) (
        version-nodep_request w version dev requester (lookup version versions)
          (λ q e. versions_of-Keyed graph name p version q e)))
      (insert-ne-nil version r versions)

module _ {V : Type 0} where
  pub lookup-delete :
      (k j : Str) (m : Map Str V) {v : V}
      → lookup j (delete k m) ≡ some v
      → lookup j m ≡ some v × (k ≢ j)
  lookup-delete k j [] {v} h = absurd (let z : none ≡ some v = h in cc)
  lookup-delete k j ((i, w) ∷ m) {v} h = elim (==_cases i k) [
    | inl e ↦
        let (g, n) = lookup-delete k j m (rw ((==_iff i k).1 e) at h) in
        (elim (==_cases i j) [ inl q ↦ absurd (n (sym e ∙ q)) | inr (q, _) ↦ rw q g ], n)
    | inr (q, ne) ↦ elim (==_cases i j) [
      | inl e ↦
          let h' : (if i == j then some w else lookup j (delete k m)) ≡ some v = rw q at h in
          (rw ((==_iff i j).1 e) (rw ((==_iff i j).1 e) at h'), λ p. ne (e ∙ sym p))
      | inr (p, _) ↦
          let h' : (if i == j then some w else lookup j (delete k m)) ≡ some v = rw q at h in
          let (g, n) = lookup-delete k j m (rw p at h') in (rw p g, n)
    ]
  ]

  mem-keys-delete :
      (k : Str) (m : Map Str V) {j : Str} → Memᴰ j (keys (delete k m)) → Memᴰ j (keys m)
  mem-keys-delete k [] n = n
  mem-keys-delete k ((i, w) ∷ m) n = elim (Bool-cases (i == k)) [
    | inl h ↦ Memᴰ.tail (mem-keys-delete k m (rw h at n))
    | inr h ↦ elim (Memᴰ.cases_cons (rw h at n)) [
      | inl e ↦ Memᴰ.head e
      | inr t ↦ Memᴰ.tail (mem-keys-delete k m t)
    ]
  ]

  delete-IsMap : (k : Str) (m : Map Str V) → IsMap m → IsMap (delete k m)
  delete-IsMap k [] d = tt
  delete-IsMap k ((i, w) ∷ m) d = elim (Bool-cases (i == k)) [
    | inl h ↦ rw h (delete-IsMap k m d.1)
    | inr h ↦ rw h ((λ n. d.0 (mem-keys-delete k m n)), delete-IsMap k m d.1)
  ]

delete-IsProper : (graph : DepRequests) (name : Str) → IsProper graph → IsProper (delete name graph)
delete-IsProper graph name p = record {
  one_entry = delete-IsMap name graph p.one_entry;
  keyed = λ other vs v r h g. p.keyed other vs v r (lookup-delete name other graph h).0 g;
  requested = λ other vs h e. p.requested other vs (lookup-delete name other graph h).0 e;
}

pub remove_dependency-IsProper :
    (name version : Str) (graph : DepRequests)
    → IsProper graph
    → IsProper (remove_dependency name version graph)
unfolding remove_dependency Keyed
remove_dependency-IsProper name version graph p = elim (Option-cases (lookup name graph)) [
  | inl e ↦ rw (e, remove_dependency) p
  | inr (vs, e) ↦ elim (List-cases (delete version vs)) [
    | inl d ↦ rw (e, remove_dependency, d) (delete-IsProper graph name p)
    | inr (x, more, d) ↦
        rw (e, remove_dependency, d)
          (insert-IsProper graph name (x ∷ more) p
            (λ v r h. p.keyed name vs v r e (lookup-delete version v vs (ap (lookup v) d ∙ h)).0)
            (λ z. cc))
  ]
]
