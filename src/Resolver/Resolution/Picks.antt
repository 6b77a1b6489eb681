-- ===== src/Resolver/Resolution/Picks.antt =====
-- What the summary of resolver.go counts, and which modules `modules_with` collects.
use go_bzlmod.Prelude.{
  ℕ, suc, Bool, true, false, not, Bool-cases, List, [], ◌∷◌, length, nat_eq, list_eq, ◌≡◌, refl, ap,
  inl, inr,
}
use go_bzlmod.Modules.{ModuleToResolve}
use go_bzlmod.Resolver.Resolution.{ResolutionSummary, count, summarize, modules_with}

-- The modules for which the flag is set, in their order.
pub data Picks (p : ModuleToResolve → Bool)
    : List ModuleToResolve → List ModuleToResolve → Type 0 where
  none_left : Picks p [] []
  picked :
      {m : ModuleToResolve} {ms out : List ModuleToResolve}
      → p m ≡ true
      → Picks p ms out
      → Picks p (m ∷ ms) (m ∷ out)
  passed :
      {m : ModuleToResolve} {ms out : List ModuleToResolve}
      → p m ≡ false
      → Picks p ms out
      → Picks p (m ∷ ms) out

pub modules_with-Picks :
    (p : ModuleToResolve → Bool) (ms : List ModuleToResolve) → Picks p ms (modules_with p ms)
unfolding modules_with
modules_with-Picks p [] = none_left
modules_with-Picks p (m ∷ ms) = elim (Bool-cases (p m)) [
  | inl q ↦ rw (q, modules_with) (picked q (modules_with-Picks p ms))
  | inr q ↦ rw (q, modules_with) (passed q (modules_with-Picks p ms))
]

-- The number of the modules for which the flag is set.
abbrev pub Number : (ModuleToResolve → Bool) → List ModuleToResolve → ℕ → Type 0
Number p ms n = (out : List ModuleToResolve) × Picks p ms out × (n ≡ length out)

count-Number : (p : ModuleToResolve → Bool) (ms : List ModuleToResolve) → Number p ms (count p ms)
unfolding count
count-Number p [] = ([], none_left, refl)
count-Number p (m ∷ ms) =
    let (out, k, e) = count-Number p ms in
    elim (Bool-cases (p m)) [
      | inl q ↦ rw (q, count) (m ∷ out, picked q k, ap suc e)
      | inr q ↦ rw (q, count) (out, passed q k, e)
    ]

pub record IsSummary (ms : List ModuleToResolve) (s : ResolutionSummary) : Type 0 where
  pub total : s.total_modules ≡ length ms
  pub production : Number (λ m. not m.dev_dependency) ms s.production_modules
  pub dev : Number (λ m. m.dev_dependency) ms s.dev_modules
  pub yanked : Number (λ m. m.yanked) ms s.yanked_modules
  pub deprecated : Number (λ m. m.is_deprecated) ms s.deprecated_modules
  pub incompatible : Number (λ m. m.is_bazel_incompatible) ms s.incompatible_modules

pub summarize-IsSummary : (ms : List ModuleToResolve) → IsSummary ms (summarize ms)
unfolding summarize
summarize-IsSummary ms = record {
  total = refl;
  production = count-Number (λ m. not m.dev_dependency) ms;
  dev = count-Number (λ m. m.dev_dependency) ms;
  yanked = count-Number (λ m. m.yanked) ms;
  deprecated = count-Number (λ m. m.is_deprecated) ms;
  incompatible = count-Number (λ m. m.is_bazel_incompatible) ms;
}
