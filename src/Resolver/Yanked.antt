-- ===== src/Resolver/Yanked.antt =====
-- The replacement of a yanked version in resolver.go.
use go_bzlmod.Prelude.{
  Ordering, lt, eq, gt, Bool, true, false, not, Bool-cases, Option-cases, none, some, Str, Result,
  ok, err, Result-cases, List, [], ◌∷◌, All, All-at, All-of_mem, ==_iff, ==_cases, nat_eq, list_eq,
  ◌≡◌, ◌≢◌, refl, sym, ap, subst, ◌∙◌, ◌↔◌, ◌⊎◌, inl, inr, Memᴰ, arith,
}
use go_bzlmod.Prelude.Memᴰ
use go_bzlmod.Prelude.Int.{ℤ, int_eq}
use go_bzlmod.Prelude.Maps.{lookup}
use go_bzlmod.Modules.{ModuleInfo}
use go_bzlmod.Metadata.{Metadata, has_value, is_yanked, filter_versions, non_yanked_versions}
use go_bzlmod.Version
use go_bzlmod.Version.Order.{IsValid, compare_refl}
use go_bzlmod.Version.Sorting.{Le, IsSorted, sort-IsSorted, mem-sort, sort-mem}
use go_bzlmod.Resolver.{same_level_or, first_replacement, find_non_yanked_version}

filter_versions-mem :
    (p : Str → Bool) (vs : List Str) {u : Str}
    → Memᴰ u (filter_versions p vs)
    → Memᴰ u vs × (p u ≡ true)
unfolding filter_versions
filter_versions-mem p [] m = elim m [ ]
filter_versions-mem p (v ∷ vs) {u} m = elim (Bool-cases (p v)) [
  | inl q ↦ elim (Memᴰ.cases_cons (rw (q, filter_versions) at m)) [
    | inl e ↦ (Memᴰ.head e, subst (λ x. p x ≡ true) (sym e) q)
    | inr t ↦ let (n, h) = filter_versions-mem p vs t in (Memᴰ.tail n, h)
  ]
  | inr q ↦ let (n, h) = filter_versions-mem p vs (rw (q, filter_versions) at m) in (Memᴰ.tail n, h)
]

mem-filter_versions :
    (p : Str → Bool) (vs : List Str) {u : Str}
    → Memᴰ u vs
    → p u ≡ true
    → Memᴰ u (filter_versions p vs)
unfolding filter_versions
mem-filter_versions p [] m h = elim m [ ]
mem-filter_versions p (v ∷ vs) {u} m h = elim (Memᴰ.cases_cons m) [
  | inl e ↦ rw (subst (λ x. p x ≡ true) e h, filter_versions) (Memᴰ.head e)
  | inr t ↦ elim (Bool-cases (p v)) [
    | inl q ↦ rw (q, filter_versions) (Memᴰ.tail (mem-filter_versions p vs t h))
    | inr q ↦ rw (q, filter_versions) (mem-filter_versions p vs t h)
  ]
]

-- A version that the metadata lists, with no entry among the yanked ones.
abbrev pub IsNotYanked : Metadata → Str → Type 0
IsNotYanked metadata v = Memᴰ v metadata.versions × (lookup v metadata.yanked_versions ≡ none)

non_yanked_versions_lem :
    (metadata : Metadata) (v : Str) → Memᴰ v (non_yanked_versions metadata) ↔ IsNotYanked metadata v
unfolding non_yanked_versions is_yanked
non_yanked_versions_lem metadata v = (
  λ m. let (n, h) = filter_versions-mem _ metadata.versions m in (n, without h),
  λ (n, h). mem-filter_versions _ metadata.versions n (rw h refl),
)
  where
    without :
        not (has_value (lookup v metadata.yanked_versions)) ≡ true
        → lookup v metadata.yanked_versions ≡ none
    without h = elim (Option-cases (lookup v metadata.yanked_versions)) [
      | inl e ↦ e
      | inr (r, e) ↦ absurd (let z : false ≡ true = rw e at h in cc)
    ]

module _ {ℓ} {Error : Type ℓ} (get_module_metadata : Str → Result Error Metadata)
    (get_module_file : Str → Str → Result Error ModuleInfo) where
  -- A candidate that may stand in for the requested version.
  abbrev pub Fits : Str → Str → ℤ → Str → Type ℓ
  Fits name requested level v =
      (Version.compare v requested ≢ lt)
      × ((info : ModuleInfo) × (get_module_file name v ≡ ok info)
          × (info.compatibility_level ≡ level))

  -- The lowest of the candidates that fit, or the requested version if there are none.
  abbrev pub Replaces : Str → Str → ℤ → (Str → Type 0) → Str → Type ℓ
  Replaces name requested level Candidate r =
      (Candidate r
        × Fits name requested level r
        × ((u : Str) → Candidate u → Fits name requested level u → Le r u))
      ⊎ ((r ≡ requested) × ((u : Str) → Candidate u → ¬ Fits name requested level u))

  abbrev Among : List Str → Str → Type 0
  Among vs u = Memᴰ u vs

  skip :
      (name requested : Str) (level : ℤ) (v : Str) (vs : List Str) (r : Str)
      → ¬ Fits name requested level v
      → Replaces name requested level (Among vs) r
      → Replaces name requested level (Among (v ∷ vs)) r
  skip name requested level v vs r n (inl (m, f, low)) = inl (
    Memᴰ.tail m,
    f,
    λ u k g. elim (Memᴰ.cases_cons k) [
      | inl e ↦ absurd (n (subst (Fits name requested level) e g))
      | inr t ↦ low u t g
    ],
  )
  skip name requested level v vs r n (inr (e, all)) = inr (
    e,
    λ u k g. elim (Memᴰ.cases_cons k) [
      | inl p ↦ n (subst (Fits name requested level) p g)
      | inr t ↦ all u t g
    ],
  )

  same_level_or-Replaces :
      (name requested : Str) (level : ℤ) (v : Str) (vs : List Str) (rest : Str)
      → Version.compare v requested ≢ lt
      → All (Le v) vs
      → Replaces name requested level (Among vs) rest
      → Replaces name requested level
          (Among (v ∷ vs))
          (same_level_or level (get_module_file name v) v rest)
  same_level_or-Replaces name requested level v vs rest c a h =
      elim (Result-cases (get_module_file name v)) [
        | inr (x, e) ↦ rw e (
            skip name requested level v vs rest
              (λ (_, (other, p, _)). (let z : ok other ≡ err x = sym p ∙ e in cc)) h)
        | inl (info, e) ↦ elim (==_cases info.compatibility_level level) [
          | inl q ↦
              rw (e, (==_iff info.compatibility_level level).1 q)
                (inl (
                  Memᴰ.head refl,
                  (c, (info, e, q)),
                  λ u k g. elim (Memᴰ.cases_cons k) [
                    | inl p ↦ λ z.
                        ground (arith, compare_refl v, subst (λ x. Version.compare v x ≡ gt) p z)
                    | inr t ↦ All-at (Le v) vs a t
                  ],
                ))
          | inr (q, n) ↦
              rw (e, q)
                (skip name requested level v vs rest
                  (λ (_, (other, p, l)).
                    let z : ok info ≡ ok other = sym e ∙ p in
                    let y : info ≡ other = cc in n (ap (λ x. x.compatibility_level) y ∙ l))
                  h)
        ]
      ]

  first_replacement-Replaces :
      (name requested : Str) (level : ℤ) (vs : List Str)
      → IsSorted vs
      → Replaces name requested level
          (Among vs)
          (first_replacement get_module_metadata get_module_file name requested level vs)
  unfolding first_replacement
  first_replacement-Replaces name requested level [] s = inr (refl, λ u m. elim m [ ])
  first_replacement-Replaces name requested level (v ∷ vs) s =
      let h = first_replacement-Replaces name requested level vs s.1 in
      let rest : Str =
        first_replacement get_module_metadata get_module_file name requested level vs in
      elim (three (Version.compare v requested)) [
        | inl l ↦ rw (l, first_replacement) (skip name requested level v vs rest (λ (c, _). c l) h)
        | inr (inl l) ↦
            rw (l, first_replacement)
              (same_level_or-Replaces name requested level v vs rest
                (λ z. (let y : eq ≡ lt = sym l ∙ z in cc)) s.0 h)
        | inr (inr l) ↦
            rw (l, first_replacement)
              (same_level_or-Replaces name requested level v vs rest
                (λ z. (let y : gt ≡ lt = sym l ∙ z in cc)) s.0 h)
      ]
    where
      three : (r : Ordering) → (r ≡ lt) ⊎ (r ≡ eq) ⊎ (r ≡ gt)
      three lt = inl refl
      three eq = inr (inl refl)
      three gt = inr (inr refl)

  -- A version with an entry among the yanked ones, whose module file can be read, is replaced by the
  -- lowest of the listed versions that have no such entry, are not lower than it, and have module
  -- files with its compatibility level; if there are none, it stays. The listed versions are valid.
  pub find_non_yanked_version_correct :
      (name requested : Str) (metadata : Metadata) (info : ModuleInfo)
      → get_module_metadata name ≡ ok metadata
      → (reason : Str) → lookup requested metadata.yanked_versions ≡ some reason
      → get_module_file name requested ≡ ok info
      → All IsValid metadata.versions
      → Replaces name requested info.compatibility_level
          (IsNotYanked metadata)
          (find_non_yanked_version get_module_metadata get_module_file name requested)
  unfolding find_non_yanked_version is_yanked
  find_non_yanked_version_correct name requested metadata info m reason listed f v =
      let vs : List Str = non_yanked_versions metadata in
      let y : is_yanked metadata requested ≡ true = rw (listed, is_yanked) refl in
      let valid : All IsValid vs =
        All-of_mem IsValid vs (λ u k.
          All-at IsValid metadata.versions v ((non_yanked_versions_lem metadata u).0 k).0) in
      rw (m, find_non_yanked_version, y, f)
        (sorted vs
          (first_replacement-Replaces name requested info.compatibility_level (Version.sort vs)
            (sort-IsSorted vs valid))
          (non_yanked_versions_lem metadata))
    where
      sorted :
          (vs : List Str) {r : Str}
          → Replaces name requested info.compatibility_level (Among (Version.sort vs)) r
          → ((u : Str) → Memᴰ u vs ↔ IsNotYanked metadata u)
          → Replaces name requested info.compatibility_level (IsNotYanked metadata) r
      sorted vs (inl (k, g, low)) c =
          inl ((c _).0 (sort-mem vs k), g, λ u n. low u (mem-sort vs ((c u).1 n)))
      sorted vs (inr (e, all)) c = inr (e, λ u n. all u (mem-sort vs ((c u).1 n)))
