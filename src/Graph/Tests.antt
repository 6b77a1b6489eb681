-- ===== src/Graph/Tests.antt =====
-- Queries on a small graph with a cycle, and the theorems at it.
use go_bzlmod.Prelude.{
  Str, codes, some, none, List, [], ◌∷◌, ◌≡◌, ◌≢◌, ◌↔◌, refl, sym, ◌∙◌, ◌==◌, ==_iff, inl, inr,
  false, true, Memᴰ, nat_eq, list_eq,
}
use go_bzlmod.Prelude.Memᴰ
use go_bzlmod.Prelude.Int.{pos, negsuc}
use go_bzlmod.Prelude.Maps.{Map, IsMap}
use go_bzlmod.Selection.Types.{ModuleKey, key_eq, key_string, DepSpec, Module, SelectionResult}
use go_bzlmod.Graph.{
  Graph, direct_deps, direct_dependents, add_keys, search_loop, transitive_deps,
  transitive_dependents,
}
use go_bzlmod.Graph.{Node}
use go_bzlmod.Graph.Searching.{IsClosure}
use go_bzlmod.Graph.Closure.{transitive_deps_correct, transitive_dependents_correct}
use go_bzlmod.Graph.Builder.{
  Builder, new_builder, record_request, record_override, find_resolved_version,
  get_requested_version, split_at_last, parse_module_key, build_selection_info,
  resolved_dependencies, create_nodes, link_deps, link_nodes, build_from_selection, SimpleModule,
  simple_nodes, build,
}
use go_bzlmod.Graph.Builder.Mirror.{transitive_deps-converse}
use go_bzlmod.Graph.Builder.Keys.{parse_module_key-key_string}

opened : Unit {0}
unfolding key_string add_keys search_loop transitive_deps transitive_dependents record_request
    record_override find_resolved_version get_requested_version split_at_last parse_module_key
    build_selection_info resolved_dependencies create_nodes link_deps link_nodes
    build_from_selection simple_nodes build
opened = tt

abbrev key : Str → ModuleKey
key name = record { name = name; version = codes "1.0" }

abbrev dep : Str → DepSpec
dep name = record { name = name; version = codes "1.0"; max_compatibility_level = negsuc 0 }

abbrev entry : Str → List DepSpec → ModuleKey × Module
entry name deps =
    (key name, record { key = key name; deps = deps; compat_level = pos 0; nodep_deps = [] })

abbrev a : Str
a = codes "a"

abbrev b : Str
b = codes "b"

abbrev c : Str
c = codes "c"

-- a depends on b, b on c and a name that is not resolved, and c on b.
abbrev resolved : Map ModuleKey Module
resolved = entry a (dep b ∷ []) ∷ entry b (dep c ∷ dep (codes "d") ∷ []) ∷ entry c (dep b ∷ []) ∷ []

abbrev result : SelectionResult
result = record { resolved_graph = resolved; unpruned_graph = resolved; bfs_order = [] }

abbrev builder : Builder
builder =
    record_override c (codes "1.0") (record_request b (codes "1.0") (codes "a@1.0") new_builder)

abbrev graph : Graph
graph = build_from_selection builder result (key a)

apart : (x y : ModuleKey) → x == y ≡ false → x ≢ y
apart x y q e = let z : false ≡ true = sym q ∙ (==_iff x y).1 e in cc

resolved-IsMap : IsMap resolved
resolved-IsMap = (
  λ m. elim (Memᴰ.cases_cons m) [
    | inl e ↦ apart (key a) (key b) refl e
    | inr n ↦ apart (key a) (key c) refl (Memᴰ.eq_of_singleton n)
  ],
  (λ m. apart (key b) (key c) refl (Memᴰ.eq_of_singleton m), (λ m. elim m [ ], tt)),
)

deps_of_a : transitive_deps graph (key a) ≡ some (key b ∷ key c ∷ [])
unfolding opened
deps_of_a = refl

deps_of_b : transitive_deps graph (key b) ≡ some (key c ∷ [])
unfolding opened
deps_of_b = refl

dependents_of_c : transitive_dependents graph (key c) ≡ some (key b ∷ key a ∷ [])
unfolding opened
dependents_of_c = refl

transitive_deps_correct_example :
    (found : List ModuleKey) × (transitive_deps graph (key a) ≡ some found)
    × IsClosure (direct_deps graph) (key a) found
transitive_deps_correct_example = transitive_deps_correct graph (key a)

transitive_dependents_correct_example :
    (found : List ModuleKey) × (transitive_dependents graph (key c) ≡ some found)
    × IsClosure (direct_dependents graph) (key c) found
transitive_dependents_correct_example = transitive_dependents_correct graph (key c)

transitive_deps-converse_example :
    (deps : List ModuleKey) × (dependents : List ModuleKey) × (transitive_deps
        (build_from_selection builder result (key a))
        (key a)
      ≡ some deps)
    × (transitive_dependents (build_from_selection builder result (key a)) (key c)
        ≡ some dependents)
    × (Memᴰ (key c) deps ↔ Memᴰ (key a) dependents)
transitive_deps-converse_example =
    transitive_deps-converse builder result (key a) (key a) (key c) resolved-IsMap

abbrev simple : List SimpleModule
simple =
    record { name = a; version = codes "1.0"; dependencies = key b ∷ []; dev_dependency = false }
    ∷ record { name = b; version = codes "1.0"; dependencies = []; dev_dependency = true }
    ∷ []

parse_module_key-key_string_example : parse_module_key (key_string (key a)) ≡ key a
parse_module_key-key_string_example = parse_module_key-key_string (key a) refl (λ e. cc)

-- Two nodes without edges between them.
abbrev bare : Str → ModuleKey × Node
bare name = (
  key name,
  record {
    key = key name;
    dependencies = [];
    dependents = [];
    requested_versions = [];
    selection = none;
    is_root = false;
    dev_dependency = false;
  },
)

abbrev pair_graph : Graph
pair_graph = record { root = key a; modules = bare a ∷ bare b ∷ [] }

pair-IsMap : IsMap pair_graph.modules
pair-IsMap = (λ m. apart (key a) (key b) refl (Memᴰ.eq_of_singleton m), (λ m. elim m [ ], tt))
