-- ===== src/Lib.antt =====
-- Preflight: models of the core of internal/domain, and theorems about them.
--
-- Preflight compiles a configuration into a graph of steps, plans them against the machine and
-- executes the plan, and it synchronises the lockfiles of several machines.
--
-- The parts, and how they interact:
--   - Compiler (internal/domain/compiler). Providers turn the configuration into steps;
--     `Compile.compile_with_context` (compiler.go, CompileWithContext) adds them to a graph by
--     `StepGraph.add_step` (step_graph.go, Add), validates it and sorts it once
--     (`Sort.topological_sort`, TopologicalSort with insertSorted).
--   - Execution (internal/domain/execution). `Planner.make_plan` (planner.go, Plan) sorts the graph
--     and asks each step for its status and its change; `Executor.execute_with_rollback`
--     (executor.go, ExecuteWithRollback) runs the entries of the plan, skips what depends on a
--     failed step, and undoes the applied steps in reverse order. plan.go and step_result.go are in
--     Plan, and Pipeline joins the planner and the executor.
--   - Sync (internal/domain/sync). Version vectors (version_vector.go, in VersionVector) order the
--     changes of a package (package_provenance.go, in Provenance). `Detector.detect`
--     (conflict_detector.go) finds the conflicts (conflict.go, in Conflict) between a local and a
--     remote state, `Resolver.resolve_all` (conflict_resolver.go) settles them by a strategy, and
--     `Engine.sync` (sync_engine.go, Sync; its types in State, buildMergedState in Building) builds
--     the merged state. `Engine.resolve_manual_conflict` settles what is left. The metadata of a
--     lockfile is in Metadata (sync_metadata.go), and what a merge reports in Merger
--     (lockfile_merger.go).
--   - Merge (internal/domain/merge/merge.go). `three_way_merge` (ThreeWayMerge) writes a conflict of
--     whole files with markers; `parse_conflict_regions` and `resolve_all_conflicts` read them.
--   - Lock (internal/domain/lock). A lockfile (lockfile.go, in Lockfile) keeps locked packages
--     (package_lock.go, in Package) with their hashes (integrity.go, in Integrity) and the machine
--     (machine_info.go, in Machine). `Resolver.resolve` (resolver.go, Resolve) chooses a version by
--     the lockfile's mode, and Encoding (repository.go, LockfileToDTO and LockfileFromDTO) is the
--     form that is written. Its sync metadata is that of Sync.
--   - Capability (internal/domain/capability). `Policy.check` (policy.go, Check) decides by sets
--     (set.go, in Set) of capabilities (capability.go) what a plugin may do.
--   - Plugin (internal/domain/plugin/resolver.go). `Resolver.resolve_manifest` (Resolve with
--     resolveDependency) gathers what a plugin requires from a registry, by constraints on versions
--     (in Constraint), and `Order.install_order` (topologicalSort) sorts it.
--   - Policy (internal/domain/policy/policy.go). `check_value` (checkValue) finds the first rule that
--     matches a value, and `evaluate` (Evaluate) sorts values by it.
--   - Config (internal/domain/config). `Merger.merge` (merger.go, Merge) merges the layers of a
--     configuration (layer.go, in Layer) for packages, files and git, and keeps each value's source.
--   - Base and GoMap hold what the parts share: lists, strings, integers, and Go's maps.
--
-- How Go is modelled:
--   - A map is an association list, read by `lookup` and written by `put`. Where Go goes through a
--     map in an arbitrary order the model goes through its list, and a theorem speaks of every list,
--     so of every order. Where it goes through the keys of two maps in an arbitrary order the model has
--     those of the first map first, and the theorems speak of single keys, not of their order.
--     `IsMap` says that no key is there twice.
--   - A nil pointer, and a value with an `ok` flag, is an Option. An error is a value.
--   - An `int` that counts the elements of a slice or a map is a natural number; a counter that goes
--     down is a ℤ; a uint64 clock is taken modulo 2 ^ 64.
--   - A step ID, a machine ID and a package key are their texts; a point in time is a number, and
--     `time.Now()` is an argument.
--   - The machine that steps act on is a type parameter, World, and a step is a record of functions
--     on it. Providers, steps and the context with its clock are arguments: they stand for code
--     outside these packages. A context may end before any entry, whatever the entries have left of
--     the World; one that ends while a step runs leaves a World that the parameter chooses, since the
--     step's goroutine goes on.
--   - Go's nil step that a sort could yield is `none`.
--
-- Fuel: the queue loop of TopologicalSort is given one round for each step and one for the end of the
-- queue; each step enters the queue at most once. The depth-first topologicalSort of plugins and
-- resolveDependency are given the length of the graph or of the registry and one more as their depth:
-- each call marks a node or gives a plugin its version. `none` as a result would mean that the fuel
-- did not suffice, and the theorems exclude it.
--
-- The digests of SHA-256 and SHA-512, and the layout and reading of times in RFC 3339, the
-- module semver and filepath.Match are parameters; a theorem that reads a written time back has the
-- hypothesis that the layout keeps it.
--
-- Not modelled: formatting and parsing (String methods, JSON codecs, names of strategies), the
-- identity of the machine (a file), and the texts that Explain gives. The other packages of the
-- repository are adapters, command line, user interface and providers that call external programs,
-- or are not covered yet (fleet, agent, and most of config, policy and plugin).
pub mod Base
pub mod GoMap
pub mod Compiler
pub mod Execution
pub mod Sync
pub mod Merge
pub mod Lock
pub mod Capability
pub mod Plugin
pub mod Policy
pub mod Config
