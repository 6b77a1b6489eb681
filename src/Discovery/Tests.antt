-- ===== src/Discovery/Tests.antt =====
-- A discovery with an override by a local path, in two orders of steps, and the theorems at it.
use go_bzlmod.Prelude.{
  ℕ, ◌+◌, ◌≤◌, Bool, true, false, Str, codes, Option, none, some, Result, ok, err, List, [], ◌∷◌,
  ◌++◌, contains, length, All, All-at, ◌≡◌, refl, sym, ap, subst, ◌∙◌, ◌⊎◌, inl, inr, if◌then◌else◌,
  ◌==◌, nat_eq, list_eq, Memᴰ, arith,
}
use go_bzlmod.Prelude.Memᴰ
use go_bzlmod.Prelude.Int.{ℤ, pos, int_eq}
use go_bzlmod.Prelude.Maps.{lookup}
use go_bzlmod.Selection.Types.{ModuleKey, key_eq, DepSpec, to_module_key, Module}
use go_bzlmod.Modules.{Dependency, local_path, Override, ModuleInfo, index_overrides}
use go_bzlmod.Discovery.{
  FetchFailure, not_found, failed, Sources, Discovery, build_dep_specs, unvisited, take_target,
  end_fetch, start, Step, Run, take, finish, begin, next, IsDone, discovered, root_key,
}
use go_bzlmod.Discovery.Spec.{outcome, followed, Leads}
use go_bzlmod.Discovery.Complete.{Answers, discovered-Answers, order_irrelevant}
use go_bzlmod.Discovery.Progress.{
  step_count, steps_left, step_count-bounded, every_schedule_ends, run_for, not_stuck, open_weight,
  fetching_weight,
}

opened : Unit {0}
unfolding build_dep_specs unvisited take_target end_fetch index_overrides open_weight
    fetching_weight
opened = tt

abbrev needs : Str → Str → Bool → Dependency
needs name version dev = record {
  name = name;
  version = version;
  max_compatibility_level = pos 0;
  repo_name = name;
  dev_dependency = dev;
  is_nodep_dep = false;
}

abbrev info : Str → Str → List Dependency → List Override → ModuleInfo
info name version deps os = record {
  name = name;
  version = version;
  compatibility_level = pos 1;
  bazel_compatibility = [];
  dependencies = deps;
  nodep_dependencies = [];
  overrides = os;
}

abbrev local_b : Override
local_b = record {
  type = local_path;
  module_name = codes "b";
  version = [];
  versions = [];
  registry = [];
  path = codes "./b";
}

-- `a` is in the registry and `b` is local; `c` is a dev dependency of a module that is not the root.
abbrev pub sources : Sources ℕ
sources = record {
  get_module_file = λ name version.
      if name == codes "a"
      then ok (
          info (codes "a") version
            (needs (codes "b") (codes "2") false ∷ needs (codes "c") (codes "1") true ∷ []) [])
      else err not_found;
  parse_local_module =
      λ path. if path == codes "./b" then ok (info (codes "b") (codes "9") [] []) else err 404;
  include_dev_deps = true;
  root_module =
      info (codes "r") []
        (needs (codes "a") (codes "1") false ∷ needs (codes "b") (codes "1") true ∷ [])
        (local_b ∷ []);
}

abbrev key_a : ModuleKey
key_a = record { name = codes "a"; version = codes "1" }

abbrev key_b : ModuleKey
key_b = record { name = codes "b"; version = [] }

abbrev dep_a : DepSpec
dep_a = record {
  name = codes "a";
  version = codes "1";
  max_compatibility_level = go_bzlmod.Prelude.Int.negsuc 0;
}

abbrev dep_b : DepSpec
dep_b = record {
  name = codes "b";
  version = [];
  max_compatibility_level = go_bzlmod.Prelude.Int.negsuc 0;
}

abbrev after_a : Discovery ℕ
after_a =
    take_target sources (go_bzlmod.Discovery.target sources key_a)
      (go_bzlmod.Discovery.with_queue sources (dep_b ∷ []) (start sources))

abbrev after_b : Discovery ℕ
after_b =
    take_target sources (go_bzlmod.Discovery.target sources key_b)
      (go_bzlmod.Discovery.with_queue sources [] after_a)

abbrev pub last : Discovery ℕ
last = end_fetch sources key_a (go_bzlmod.Discovery.with_fetching sources [] after_b)

taken_a : Run sources after_a
unfolding opened
taken_a = next begin (take dep_a (dep_b ∷ []) refl refl)

pub run : Run sources last
unfolding opened
run = next (next taken_a (take dep_b [] refl refl)) (finish [] key_a [] refl refl)

pub run-IsDone : IsDone sources last
unfolding opened
run-IsDone = record { no_queue = refl; no_fetching = refl }

-- The fetch ends before the main loop goes on: `b` is in the queue twice.
abbrev early : Discovery ℕ
early = end_fetch sources key_a (go_bzlmod.Discovery.with_fetching sources [] after_a)

abbrev early_b : Discovery ℕ
early_b =
    take_target sources (go_bzlmod.Discovery.target sources key_b)
      (go_bzlmod.Discovery.with_queue sources (dep_b ∷ []) early)

abbrev early_last : Discovery ℕ
early_last =
    take_target sources (go_bzlmod.Discovery.target sources key_b)
      (go_bzlmod.Discovery.with_queue sources [] early_b)

abbrev early_run : Run sources early_last
unfolding opened
early_run =
    next (next (next taken_a (finish [] key_a [] refl refl)) (take dep_b (dep_b ∷ []) refl refl))
      (take dep_b [] refl refl)

early_run-IsDone : IsDone sources early_last
unfolding opened
early_run-IsDone = record { no_queue = refl; no_fetching = refl }

-- The keys, and their dependencies.
abbrev all_keys : List ModuleKey
all_keys = root_key sources ∷ key_a ∷ key_b ∷ []

closed_at :
    (key : ModuleKey) (found : Module)
    → outcome sources key ≡ ok (some found)
    → All (λ d. Memᴰ (to_module_key d) all_keys) (followed sources key found)
    → (m : Module) → outcome sources key ≡ ok (some m)
    → All (λ d. Memᴰ (to_module_key d) all_keys) (followed sources key m)
closed_at key found o h m p =
    let q : ok (some found) ≡ ok (some m) = sym o ∙ p in
    let e : found ≡ m = cc in
    subst (λ x. All (λ d. Memᴰ (to_module_key d) all_keys) (followed sources key x)) e h

abbrev At : ModuleKey → Type 0
At k =
    (m : Module)
    → outcome sources k ≡ ok (some m)
    → All (λ d. Memᴰ (to_module_key d) all_keys) (followed sources k m)

closed :
    (key : ModuleKey)
    → Memᴰ key all_keys
    → (m : Module) → outcome sources key ≡ ok (some m)
    → All (λ d. Memᴰ (to_module_key d) all_keys) (followed sources key m)
unfolding opened
closed key n = elim (Memᴰ.cases_cons n) [
  | inl e ↦ subst At (sym e) (
      closed_at (root_key sources) _ refl
        (Memᴰ.tail (Memᴰ.head refl), (Memᴰ.tail (Memᴰ.tail (Memᴰ.head refl)), tt)))
  | inr t ↦ elim (Memᴰ.cases_cons t) [
    | inl e ↦ subst At (sym e) (closed_at key_a _ refl (Memᴰ.tail (Memᴰ.tail (Memᴰ.head refl)), tt))
    | inr u ↦ subst At (sym (Memᴰ.eq_of_singleton u)) (closed_at key_b _ refl tt)
  ]
]

known : (key : ModuleKey) → Leads sources key → Memᴰ key all_keys
known key (Leads.root e) = Memᴰ.head e
known key (Leads.step {key = from} m dep l o n e) =
    subst (λ k. Memᴰ k all_keys) (sym e)
      (All-at (λ d. Memᴰ (to_module_key d) all_keys) (followed sources from m)
        (closed from (known from l) m o) n)

discovered-Answers_example : Answers sources (discovered sources last)
discovered-Answers_example = discovered-Answers sources run run-IsDone

order_irrelevant_example : lookup key_b last.modules ≡ lookup key_b early_last.modules
unfolding opened
order_irrelevant_example =
    order_irrelevant sources run early_run run-IsDone early_run-IsDone refl refl key_b

step_count-bounded_example :
    step_count sources run + steps_left sources all_keys last
    ≤ steps_left sources all_keys (start sources)
step_count-bounded_example = step_count-bounded sources all_keys run known

every_schedule_ends_example :
    IsDone sources
      (run_for sources (λ s r. not_stuck sources s) (steps_left sources all_keys (start sources))).0
every_schedule_ends_example =
    every_schedule_ends sources all_keys (λ s r. not_stuck sources s) known
