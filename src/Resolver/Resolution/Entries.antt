-- ===== src/Resolver/Resolution/Entries.antt =====
-- The entries of a resolution list of resolver.go: the marks leave their names and versions.
use go_bzlmod.Prelude.{
  suc, gt, Str, Option, none, some, Result, Result-cases, List, [], ◌∷◌, List-cases, length, All,
  strings_compare, nat_eq, list_eq, ◌≡◌, ◌≢◌, refl, sym, ap, subst, ◌∙◌, inl, inr, Memᴰ, arith,
}
use go_bzlmod.Prelude.Memᴰ
use go_bzlmod.Prelude.Maps.{Map}
use go_bzlmod.Modules.{ModuleToResolve, ModuleInfo}
use go_bzlmod.Metadata.{Metadata, mark_module, check_module_metadata}
use go_bzlmod.Compat.{with_info, check_module_bazel_compatibility}
use go_bzlmod.Diff.{insert_by_name, sort_by_name}
use go_bzlmod.Diff.Sorting.{NamesAscend}
use go_bzlmod.Resolver.{DepRequest}
use go_bzlmod.Resolver.Resolution.{new_modules}

-- Two entries of the same module at the same version, both for development or neither.
abbrev pub SameModule : ModuleToResolve → ModuleToResolve → Type 0
SameModule a b = (a.name ≡ b.name) × (a.version ≡ b.version) × (a.dev_dependency ≡ b.dev_dependency)

abbrev pub Same : List ModuleToResolve → List ModuleToResolve → Type 0
Same [] [] = Unit
Same (a ∷ xs) (b ∷ bs) = SameModule a b × Same xs bs
Same _ _ = ⊥

pub Same-refl : (ms : List ModuleToResolve) → Same ms ms
Same-refl [] = tt
Same-refl (m ∷ ms) = ((refl, refl, refl), Same-refl ms)

pub Same-trans : (xs bs cs : List ModuleToResolve) → Same xs bs → Same bs cs → Same xs cs
Same-trans [] [] cs h k = k
Same-trans [] (b ∷ bs) cs h k = absurd h
Same-trans (a ∷ xs) [] cs h k = absurd h
Same-trans (a ∷ xs) (b ∷ bs) [] h k = absurd k
Same-trans (a ∷ xs) (b ∷ bs) (c ∷ cs) ((x, y, z), h) ((u, v, w), k) =
    ((x ∙ u, y ∙ v, z ∙ w), Same-trans xs bs cs h k)

pub Same-length : (xs bs : List ModuleToResolve) → Same xs bs → length xs ≡ length bs
Same-length [] [] h = refl
Same-length [] (b ∷ bs) h = absurd h
Same-length (a ∷ xs) [] h = absurd h
Same-length (a ∷ xs) (b ∷ bs) h = ap suc (Same-length xs bs h.1)

pub Same-mem :
    (xs bs : List ModuleToResolve) {a : ModuleToResolve}
    → Same xs bs
    → Memᴰ a xs
    → (b : ModuleToResolve) × Memᴰ b bs × SameModule a b
Same-mem [] bs h m = elim m [ ]
Same-mem (a ∷ xs) [] h m = absurd h
Same-mem (a ∷ xs) (b ∷ bs) h m = elim (Memᴰ.cases_cons m) [
  | inl e ↦ (
    b,
    Memᴰ.head refl,
    (
      ap (λ x. x.name) e ∙ h.0.0,
      ap (λ x. x.version) e ∙ h.0.1,
      ap (λ x. x.dev_dependency) e ∙ h.0.2,
    ),
  )
  | inr t ↦ let (c, k, s) = Same-mem xs bs h.1 t in (c, Memᴰ.tail k, s)
]

pub Same-sym : (xs bs : List ModuleToResolve) → Same xs bs → Same bs xs
Same-sym [] [] h = tt
Same-sym [] (b ∷ bs) h = absurd h
Same-sym (a ∷ xs) [] h = absurd h
Same-sym (a ∷ xs) (b ∷ bs) ((x, y, z), h) = ((sym x, sym y, sym z), Same-sym xs bs h)

NamesLe-Same :
    (a : Str) (xs bs : List ModuleToResolve)
    → Same xs bs
    → All (λ y. strings_compare a y.name ≢ gt) xs
    → All (λ y. strings_compare a y.name ≢ gt) bs
NamesLe-Same a [] [] h k = tt
NamesLe-Same a [] (b ∷ bs) h k = absurd h
NamesLe-Same a (x ∷ xs) [] h k = absurd h
NamesLe-Same a (x ∷ xs) (b ∷ bs) h k =
    (subst (λ n. strings_compare a n ≢ gt) h.0.0 k.0, NamesLe-Same a xs bs h.1 k.1)

pub Same-NamesAscend :
    (xs bs : List ModuleToResolve)
    → Same xs bs
    → NamesAscend (λ m. m.name) xs
    → NamesAscend (λ m. m.name) bs
Same-NamesAscend [] [] h k = tt
Same-NamesAscend [] (b ∷ bs) h k = absurd h
Same-NamesAscend (a ∷ xs) [] h k = absurd h
Same-NamesAscend (a ∷ xs) (b ∷ bs) h k = (
  subst (λ n. All (λ y. strings_compare n y.name ≢ gt) bs) h.0.0
      (NamesLe-Same a.name xs bs h.1 k.0),
  Same-NamesAscend xs bs h.1 k.1,
)

module _ {ℓ} {Error : Type ℓ} (get_module_metadata : Str → Result Error Metadata)
    (allowed : List Str) where
  mark_module-SameModule :
      (m : ModuleToResolve) → SameModule m (mark_module get_module_metadata allowed m)
  unfolding mark_module
  mark_module-SameModule m = elim (Result-cases (get_module_metadata m.name)) [
    | inl (x, e) ↦ rw (e, mark_module) (refl, refl, refl)
    | inr (x, e) ↦ rw (e, mark_module) (refl, refl, refl)
  ]

  pub check_module_metadata-Same :
      (ms : List ModuleToResolve) → Same ms (check_module_metadata get_module_metadata allowed ms)
  unfolding check_module_metadata
  check_module_metadata-Same [] = tt
  check_module_metadata-Same (m ∷ ms) = (mark_module-SameModule m, check_module_metadata-Same ms)

with_info-SameModule :
    (bazel_version : Str) (m : ModuleToResolve) (i : Option ModuleInfo)
    → SameModule m (with_info bazel_version m i)
with_info-SameModule bazel_version m none = (refl, refl, refl)
with_info-SameModule bazel_version m (some info) = elim (List-cases info.bazel_compatibility) [
  | inl e ↦ rw e (refl, refl, refl)
  | inr (s, rest, e) ↦ rw e (refl, refl, refl)
]

pub check_module_bazel_compatibility-Same :
    (cache : Map Str ModuleInfo) (bazel_version : Str) (ms : List ModuleToResolve)
    → Same ms (check_module_bazel_compatibility cache bazel_version ms)
unfolding check_module_bazel_compatibility
check_module_bazel_compatibility-Same cache bazel_version [] = tt
check_module_bazel_compatibility-Same cache bazel_version (m ∷ ms) = (
  with_info-SameModule bazel_version m _,
  check_module_bazel_compatibility-Same cache bazel_version ms,
)

length-insert_by_name :
    (x : ModuleToResolve) (ys : List ModuleToResolve)
    → length (insert_by_name (λ m. m.name) x ys) ≡ suc (length ys)
unfolding insert_by_name
length-insert_by_name x [] = refl
length-insert_by_name x (y ∷ ys) = ground (arith, length-insert_by_name x ys)

pub length-sort_by_name :
    (xs : List ModuleToResolve) → length (sort_by_name (λ m. m.name) xs) ≡ length xs
unfolding sort_by_name
length-sort_by_name [] = refl
length-sort_by_name (x ∷ xs) =
    length-insert_by_name x (sort_by_name (λ m. m.name) xs) ∙ ap suc (length-sort_by_name xs)

pub length-new_modules :
    (make : Str → DepRequest → ModuleToResolve) (selected : Map Str DepRequest)
    → length (new_modules make selected) ≡ length selected
unfolding new_modules
length-new_modules make [] = refl
length-new_modules make ((name, req) ∷ rest) = ap suc (length-new_modules make rest)

pub mem-new_modules :
    (make : Str → DepRequest → ModuleToResolve) (selected : Map Str DepRequest) {name : Str}
    {req : DepRequest}
    → Memᴰ (name, req) selected
    → Memᴰ (make name req) (new_modules make selected)
unfolding new_modules
mem-new_modules make [] m = elim m [ ]
mem-new_modules make ((n, r) ∷ rest) m = elim (Memᴰ.cases_cons m) [
  | inl e ↦ Memᴰ.head (ap (λ x. make x.0 x.1) e)
  | inr t ↦ Memᴰ.tail (mem-new_modules make rest t)
]

pub new_modules-mem :
    (make : Str → DepRequest → ModuleToResolve) (selected : Map Str DepRequest)
    {m : ModuleToResolve}
    → Memᴰ m (new_modules make selected)
    → (name : Str) × (req : DepRequest) × Memᴰ (name, req) selected × (m ≡ make name req)
unfolding new_modules
new_modules-mem make [] m = elim m [ ]
new_modules-mem make ((n, r) ∷ rest) m = elim (Memᴰ.cases_cons m) [
  | inl e ↦ (n, r, Memᴰ.head refl, e)
  | inr t ↦ let (a, b, c, d) = new_modules-mem make rest t in (a, b, Memᴰ.tail c, d)
]
