-- ===== src/Registry/Tests.antt =====
-- Requests to a partial mirror and a full registry, and the theorems at them.
use go_bzlmod.Prelude.{
  ℕ, Str, codes, some, [], ◌∷◌, ok, err, if◌then◌else◌, ◌==◌, ◌≡◌, refl, nat_eq, list_eq,
}
use go_bzlmod.Prelude.Maps.{lookup}
use go_bzlmod.Registry.{
  Client, RegistryChain, try_others, try_in_order, fetch, get_module_file, get_module_metadata,
  get_module_source, base_url, get_registry_for_module,
}
use go_bzlmod.Registry.Requests.{InRange, requests-InRange}

opened : Unit {0}
unfolding try_others try_in_order fetch get_module_file get_module_metadata base_url
    get_registry_for_module
opened = tt

-- The mirror has version 1 alone.
abbrev mirror : Client ℕ ℕ ℕ ℕ
mirror = record {
  base_url = codes "mirror";
  module_file = λ name version. if version == codes "1" then ok 1 else err 404;
  module_metadata = λ name. err 404;
  module_source = λ name version. err 404;
}

abbrev full : Client ℕ ℕ ℕ ℕ
full = record {
  base_url = codes "full";
  module_file = λ name version. ok 2;
  module_metadata = λ name. ok 3;
  module_source = λ name version. ok 4;
}

abbrev chain : RegistryChain ℕ ℕ ℕ ℕ
chain = record { clients = mirror ∷ full ∷ []; module_registry = [] }

abbrev a : Str
a = codes "a"

abbrev asked : RegistryChain ℕ ℕ ℕ ℕ
asked = record { clients = mirror ∷ full ∷ []; module_registry = (a, 0) ∷ [] }

first_request : get_module_file a (codes "1") chain ≡ (ok 1, asked)
unfolding opened
first_request = refl

-- Another version comes from the other registry, and the memory stays.
second_request : get_module_file a (codes "2") asked ≡ (ok 2, asked)
unfolding opened
second_request = refl

reported_registry : get_registry_for_module a asked ≡ codes "mirror"
unfolding opened
reported_registry = refl

first_registry : base_url chain ≡ codes "mirror"
unfolding opened
first_registry = refl

chain-InRange : InRange chain
chain-InRange name i e = absurd cc

requests-InRange_example :
    InRange (get_module_file a (codes "1") chain).1
    × InRange (get_module_metadata a chain).1
    × InRange (get_module_source a (codes "1") chain).1
    × ((n : Str) (j : ℕ)
        → lookup n chain.module_registry ≡ some j
        → (lookup n (get_module_file a (codes "1") chain).1.module_registry ≡ some j)
          × (lookup n (get_module_metadata a chain).1.module_registry ≡ some j)
          × (lookup n (get_module_source a (codes "1") chain).1.module_registry ≡ some j))
requests-InRange_example = requests-InRange a (codes "1") chain chain-InRange
