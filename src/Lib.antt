-- ===== src/Lib.antt =====
-- go-bzlmod resolves the dependencies of a Bazel module. `Run` of selection/selection.go takes the
-- graph of all modules that discovery found and the overrides of the root module, and selects one
-- version for each selection group, as Bazel does; selection/version/version.go compares versions.
--
-- The files and the code they model:
--   * Prelude and its children: byte strings, lists, a class of Boolean equality, integers,
--     association lists for Go's maps, results with errors, and preorders made of comparisons.
--   * Version: selection/version/version.go (`Parse`, `Compare`, `Sort`, `Max`). The regular
--     expression is a scan from the left. A number that `strconv.ParseUint` refuses, of 2^64 or
--     more, makes an identifier that compares as text, as in the source.
--   * Selection.Types: selection/types.go and the small types of selection/selection.go.
--   * Selection.Groups: steps 1 to 3 of `Run`: `computeAllowedVersionSets`, `computeSelectionGroup`
--     and the loop that selects the highest version of each group.
--   * Selection.Strategies: step 4: `computePossibleResolutionResultsForOneDepSpec`,
--     `computeAllPossibleResolutions`, `cartesianProduct` and `enumerateStrategies`.
--   * Selection.Walker: `depGraphWalker` with `walk` and `visit`.
--   * Selection.Run: `tryStrategy` and `Run`.
--   * Diff: diff.go (`DiffResolutions`, `IsEmpty`, `TotalChanges`).
--   * Graph: graph/types.go, and the direct and transitive queries of graph/query.go, with its
--     roots, leaves and lookup by name.
--   * Graph.Builder: graph/builder.go (`BuildFromSelection`, `Build`, `parseModuleKey`).
--   * Modules: the data of types.go, and the indices and conversions of overrides in resolver.go,
--     registry_trace.go and selection_api.go.
--   * Discovery: `buildDepGraph` of selection_api.go, which makes the graph that `Run` takes. Spec says
--     what it is to find, Invariant, Steps and Complete show that it does, Progress that it ends.
--   * SelectionApi: `Resolve` of selection_api.go, which takes the discovered graph through `Run` to the
--     list of `buildResult`, and `computeReachableKeys`. Starts says where the root leads.
--   * Metadata: registry/types.go's `Metadata`, and metadata.go (`checkModuleMetadata`).
--   * Compat: internal/compat/fields.go, and bazel_compat.go (`checkBazelCompatibility`).
--   * Resolver: resolver.go: the requests for versions, `applyOverrides`, `applyMVS`,
--     `checkDirectDeps`, `findNonYankedVersion` and `substituteYankedVersionsInGraph`.
--     Resolver.Depths: `calculateModuleDepths`. Resolver.Resolution: `buildResolutionList` up to the
--     sources of modules, with `buildGraph`. Resolver.Building: the workers of
--     `buildDependencyGraph` and the rounds of `ResolveDependencies`. Resolver.Dependencies: what
--     `ResolveDependencies` does after the rounds.
--   * Label: label/module.go (`NewModule`, `NewApparentRepo`, `ParseApparentLabel`).
--   * Registry: registry_chain.go (`GetModuleFile`, `GetModuleMetadata`, `GetModuleSource`, `BaseURL`,
--     `GetRegistryForModule`), with the clients as parameters and one request as one step.
-- The steps call each other as the source does: `run` computes the groups, enumerates the
-- strategies from what they select, and tries each by two walks of the graph.
--
-- There are two resolvers: that of selection_api.go discovers the graph and calls `Run`; that of
-- resolver.go collects requests and selects the highest one for each name.
--
-- The goroutines of the discovery, and the workers of resolver.go, share a state under a mutex. A step
-- relation has one step for each locked region, so its runs are the interleavings, and a theorem over
-- all runs holds for each. Two steps of the workers are coarser: `process_dep` joins the region that
-- adds a request with the one that marks its key as visited, and `end_task` the regions that write the
-- cache of module files and the dependencies.
--
-- A Go map is an association list with distinct keys, in the order of insertion; nothing is assumed
-- of the order in which a loop visits a map. Go's int is an integer without bounds here, since
-- compatibility levels are only compared. An error is a constructor for the place that makes it,
-- with the values its message prints.
--
-- Fuel: `walk` runs on one unit for the root and one for each dependency and nodep dependency of the
-- graph, as an item enters the queue at most once for each of these. The searches of graph/query.go
-- run on one unit for each edge and two more, that for depths on one for each selected
-- module, and `computeReachableKeys` on one for each start and dependency. All other loops are structural.
--
-- Not modelled: what the registry clients do, and the file system (input and output); the
-- dependencies of MODULE.tools, and the limit of 100 rounds in resolver.go; what a caller's cancelled
-- context does; the sources that `enrichResolutionList` adds, on which the other results do not depend,
-- and the error with which it may end a resolution where registry files are traced; the texts of
-- warnings and errors; paths, statistics and cycles of graph/query.go; the parser of MODULE.bazel (it
-- rests on a vendored library); the lockfile; the versions of label/version.go; the command-line tools.
pub mod Prelude
pub mod Version
pub mod Selection
pub mod Compat
pub mod Diff
pub mod Discovery
pub mod Graph
pub mod Label
pub mod Metadata
pub mod Modules
pub mod Registry
pub mod Resolver
pub mod SelectionApi
