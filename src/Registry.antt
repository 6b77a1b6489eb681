-- ===== src/Registry.antt =====
-- registry_chain.go: registries that are tried in order, and the memory of which one provides a
-- module. A client is a parameter: what it answers to a request. The lock is left out; a request is
-- one step.
pub mod Fetch
pub mod Requests
pub mod Tests
use go_bzlmod.Prelude.{
  ℕ, suc, zero, Bool, Str, Option, none, some, List, [], ◌∷◌, ◌++◌, Result, ok, err, if◌then◌else◌,
  ◌==◌, nat_eq, list_eq,
}
use go_bzlmod.Prelude.Maps.{Map, lookup, insert}

-- The interface `Registry`, with what a client answers.
pub record Client (Info Metadata Source Error : Type 0) : Type 0 where
  pub base_url : Str
  pub module_file : Str → Str → Result Error Info
  pub module_metadata : Str → Result Error Metadata
  pub module_source : Str → Str → Result Error Source

pub record RegistryChain (Info Metadata Source Error : Type 0) : Type 0 where
  pub clients : List (Client Info Metadata Source Error)
  pub module_registry : Map Str ℕ

-- What a failed request has noted of its failures. `out_of_range` stands for Go's panic.
pub data FetchError (Noted : Type 0) : Type 0 where
  out_of_range : FetchError Noted
  failed : Noted → FetchError Noted

abbrev pub get_elem? {ℓ} : {A : Type ℓ} → List A → ℕ → Option A
get_elem? [] i = none
get_elem? (x ∷ xs) zero = some x
get_elem? (x ∷ xs) (suc i) = get_elem? xs i

module _ {Info Metadata Source Error : Type 0} where
  abbrev pub remember :
      Str → ℕ → RegistryChain Info Metadata Source Error → RegistryChain Info Metadata Source Error
  remember module_name i rc = record {
    clients = rc.clients;
    module_registry = insert module_name i rc.module_registry;
  }

  module _ {A Noted : Type 0} (call : Client Info Metadata Source Error → Result Error A)
      (note : Noted → Client Info Metadata Source Error → Error → Noted) where
    -- The loop that skips the registry tried before; `i` is the index of the first client.
    unfoldable pub try_others :
        ℕ → ℕ → List (Client Info Metadata Source Error) → Noted → Result Noted A
    try_others skip i [] noted = err noted
    try_others skip i (client ∷ rest) noted =
        let skipped = try_others skip (suc i) rest noted in
        if i == skip then skipped else elim (call client) [
          | ok a ↦ ok a
          | err e ↦ try_others skip (suc i) rest (note noted client e)
        ]

    -- The loop over all registries, which returns the index of the one that answered.
    unfoldable pub try_in_order :
        ℕ → List (Client Info Metadata Source Error) → Noted → Result Noted (A × ℕ)
    try_in_order i [] noted = err noted
    try_in_order i (client ∷ rest) noted = elim (call client) [
      | ok a ↦ ok (a, i)
      | err e ↦ try_in_order (suc i) rest (note noted client e)
    ]

    -- The course that `GetModuleFile`, `GetModuleMetadata` and `GetModuleSource` share.
    unfoldable pub fetch :
        Noted
        → Str
        → RegistryChain Info Metadata Source Error
        → Result (FetchError Noted) A × RegistryChain Info Metadata Source Error
    fetch noted module_name rc = elim (lookup module_name rc.module_registry) [
      | some registry_idx ↦ elim (get_elem? rc.clients registry_idx) [
        | none ↦ (err out_of_range, rc)
        | some client ↦ elim (call client) [
          | ok a ↦ (ok a, rc)
          | err e ↦ elim (try_others registry_idx 0 rc.clients (note noted client e)) [
            | ok a ↦ (ok a, rc)
            | err all ↦ (err (failed all), rc)
          ]
        ]
      ]
      | none ↦ elim (try_in_order 0 rc.clients noted) [
        | ok (a, i) ↦ (ok a, remember module_name i rc)
        | err all ↦ (err (failed all), rc)
      ]
    ]

  -- `notFoundErrors`, with the address of each client.
  abbrev pub note_all :
      List (Str × Error) → Client Info Metadata Source Error → Error → List (Str × Error)
  note_all noted client e = noted ++ (client.base_url, e) ∷ []

  -- `lastErr`
  abbrev pub note_last : Option Error → Client Info Metadata Source Error → Error → Option Error
  note_last noted client e = some e

  unfoldable pub get_module_file :
      Str
      → Str
      → RegistryChain Info Metadata Source Error
      → Result (FetchError (List (Str × Error))) Info × RegistryChain Info Metadata Source Error
  get_module_file module_name version =
      fetch (λ client. client.module_file module_name version) note_all [] module_name

  unfoldable pub get_module_metadata :
      Str
      → RegistryChain Info Metadata Source Error
      → Result (FetchError (Option Error)) Metadata × RegistryChain Info Metadata Source Error
  get_module_metadata module_name =
      fetch (λ client. client.module_metadata module_name) note_last none module_name

  unfoldable pub get_module_source :
      Str
      → Str
      → RegistryChain Info Metadata Source Error
      → Result (FetchError (Option Error)) Source × RegistryChain Info Metadata Source Error
  get_module_source module_name version =
      fetch (λ client. client.module_source module_name version) note_last none module_name

  abbrev pub base_url_of : Option (Client Info Metadata Source Error) → Str
  base_url_of none = []
  base_url_of (some client) = client.base_url

  -- `BaseURL`
  unfoldable pub base_url : RegistryChain Info Metadata Source Error → Str
  base_url rc = base_url_of (get_elem? rc.clients 0)

  unfoldable pub get_registry_for_module : Str → RegistryChain Info Metadata Source Error → Str
  get_registry_for_module module_name rc = elim (lookup module_name rc.module_registry) [
    | none ↦ []
    | some idx ↦ base_url_of (get_elem? rc.clients idx)
  ]
