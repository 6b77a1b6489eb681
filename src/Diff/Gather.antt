-- ===== src/Diff/Gather.antt =====
-- The loops of diff.go over the maps of versions: what they append is what one name contributes.
use go_bzlmod.Prelude.{
  Str, Option, none, some, List, [], ◌∷◌, ◌++◌, ◌≡◌, ◌≢◌, refl, sym, ap, ◌∙◌, ◌↔◌, ==_cases, ==_iff,
  ◌⊎◌, inl, inr, nat_eq, list_eq, Memᴰ, subst,
}
use go_bzlmod.Prelude.Memᴰ
use go_bzlmod.Prelude.Maps.{Map, lookup, lookup-insert, insert, IsMap, insert-IsMap}
use go_bzlmod.Diff.{
  ResolutionDiff, ModuleToResolve, lookup_map, versions_of, append_changes, gather,
}

lookup_map-IsMap : (ms : List ModuleToResolve) (m : Map Str Str) → IsMap m → IsMap (lookup_map ms m)
unfolding lookup_map
lookup_map-IsMap [] m h = h
lookup_map-IsMap (x ∷ xs) m h =
    lookup_map-IsMap xs (insert x.name x.version m) (insert-IsMap x.name x.version m h)

-- A list of modules gives a name the version of the last module of that name.
abbrev pub HasNo : Str → List ModuleToResolve → Type 0
HasNo name [] = Unit
HasNo name (m ∷ ms) = (m.name ≢ name) × HasNo name ms

abbrev pub GivesLast : Str → Str → List ModuleToResolve → Type 0
GivesLast name version [] = ⊥
GivesLast name version (m ∷ ms) =
    GivesLast name version ms ⊎ ((m.name ≡ name) × (m.version ≡ version) × HasNo name ms)

abbrev pub HasNone : Str → Option (List ModuleToResolve) → Type 0
HasNone name none = Unit
HasNone name (some ms) = HasNo name ms

abbrev pub Gives : Str → Str → Option (List ModuleToResolve) → Type 0
Gives name version none = ⊥
Gives name version (some ms) = GivesLast name version ms

lookup_map-none :
    (name : Str) (ms : List ModuleToResolve) (m : Map Str Str)
    → (lookup name (lookup_map ms m) ≡ none) ↔ ((lookup name m ≡ none) × HasNo name ms)
unfolding lookup_map
lookup_map-none name [] m = (λ e. (e, tt), λ (e, _). e)
lookup_map-none name (x ∷ xs) m =
    let ih = lookup_map-none name xs (insert x.name x.version m) in
    let l = lookup-insert x.name name x.version m in
    elim (==_cases x.name name) [
      | inl p ↦
          let at : lookup name (insert x.name x.version m) ≡ some x.version =
            rw ((==_iff x.name name).1 p) at l in
          (
            λ e. absurd (let z : some x.version ≡ none = sym at ∙ (ih.0 e).0 in cc),
            λ (_, (n, _)). absurd (n p),
          )
      | inr (q, n) ↦
          let at : lookup name (insert x.name x.version m) ≡ lookup name m = rw q at l in
          (λ e. let (a, b) = ih.0 e in (sym at ∙ a, (n, b)), λ (a, (_, b)). ih.1 (at ∙ a, b))
    ]

lookup_map-some :
    (name version : Str) (ms : List ModuleToResolve) (m : Map Str Str)
    → (lookup name (lookup_map ms m) ≡ some version)
      ↔ (GivesLast name version ms ⊎ ((lookup name m ≡ some version) × HasNo name ms))
unfolding lookup_map
lookup_map-some name version [] m =
    (λ e. inr (e, tt), λ s. elim s [ inl h ↦ absurd h | inr (e, _) ↦ e ])
lookup_map-some name version (x ∷ xs) m =
    let ih = lookup_map-some name version xs (insert x.name x.version m) in
    let l = lookup-insert x.name name x.version m in
    elim (==_cases x.name name) [
      | inl p ↦
          let at : lookup name (insert x.name x.version m) ≡ some x.version =
            rw ((==_iff x.name name).1 p) at l in
          (
            λ e. elim (ih.0 e) [
              | inl g ↦ inl (inl g)
              | inr (a, b) ↦
                  let z : some x.version ≡ some version = sym at ∙ a in
                  let v : x.version ≡ version = cc in inl (inr (p, v, b))
            ],
            λ s. elim s [
              | inl (inl g) ↦ ih.1 (inl g)
              | inl (inr (_, v, b)) ↦ ih.1 (inr (at ∙ ap some v, b))
              | inr (_, (n, _)) ↦ absurd (n p)
            ],
          )
      | inr (q, n) ↦
          let at : lookup name (insert x.name x.version m) ≡ lookup name m = rw q at l in
          (
            λ e. elim (ih.0 e) [ inl g ↦ inl (inl g) | inr (a, b) ↦ inr (sym at ∙ a, (n, b)) ],
            λ s. elim s [
              | inl (inl g) ↦ ih.1 (inl g)
              | inl (inr (p, _, _)) ↦ absurd (n p)
              | inr (a, (_, b)) ↦ ih.1 (inr (at ∙ a, b))
            ],
          )
    ]

pub versions_of-none :
    (name : Str) (ms : Option (List ModuleToResolve))
    → (lookup name (versions_of ms) ≡ none) ↔ HasNone name ms
versions_of-none name none = (λ e. tt, λ h. refl)
versions_of-none name (some ms) =
    let h = lookup_map-none name ms [] in (λ e. (h.0 e).1, λ n. h.1 (refl, n))

pub versions_of-some :
    (name version : Str) (ms : Option (List ModuleToResolve))
    → (lookup name (versions_of ms) ≡ some version) ↔ Gives name version ms
versions_of-some name version none = (λ e. cc, λ h. absurd h)
versions_of-some name version (some ms) =
    let h = lookup_map-some name version ms [] in
    (λ e. elim (h.0 e) [ inl g ↦ g | inr (a, _) ↦ (cc a) ], λ g. h.1 (inl g))

pub versions_of-IsMap : (ms : Option (List ModuleToResolve)) → IsMap (versions_of ms)
versions_of-IsMap none = tt
versions_of-IsMap (some ms) = lookup_map-IsMap ms [] tt

module _ {A : Type 0} (part : ResolutionDiff → List A)
    (part-append : (d e : ResolutionDiff) → part (append_changes d e) ≡ part d ++ part e)
    (f : Str → Str → ResolutionDiff) where
  abbrev pub Gathered : Map Str Str → A → Type 0
  Gathered m x =
      (name : Str) × (version : Str) × Memᴰ (name, version) m × Memᴰ x (part (f name version))

  pub mem-gather :
      (m : Map Str Str) (d : ResolutionDiff) {x : A}
      → Memᴰ x (part (gather f m d)) ↔ (Memᴰ x (part d) ⊎ Gathered m x)
  unfolding gather
  mem-gather [] d = (inl, λ s. elim s [ inl h ↦ h | inr (n, v, h, k) ↦ elim h [ ] ])
  mem-gather ((n, v) ∷ m) d {x} = (
    λ h. elim ((mem-gather m (append_changes d (f n v))).0 h) [
      | inl g ↦ elim (Memᴰ.append_cases (part d) (rw (part-append d (f n v)) at g)) [
        | inl a ↦ inl a
        | inr b ↦ inr (n, v, Memᴰ.head refl, b)
      ]
      | inr (n', v', a, b) ↦ inr (n', v', Memᴰ.tail a, b)
    ],
    λ h. (mem-gather m (append_changes d (f n v))).1 (elim h [
      | inl a ↦ inl (rw (part-append d (f n v)) (Memᴰ.append_left (part (f n v)) a))
      | inr (n', v', a, b) ↦ elim (Memᴰ.cases_cons a) [
        | inl p ↦
            let q : f n' v' ≡ f n v = cc (ap (λ t. t.0) p, ap (λ t. t.1) p) in
            inl (
              rw (part-append d (f n v))
                (Memᴰ.append_right (part d) (subst (λ e. Memᴰ x (part e)) q b)))
        | inr t ↦ inr (n', v', t, b)
      ]
    ]),
  )
