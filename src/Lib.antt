-- ===== src/Lib.antt =====
-- nix-compose: the parts that decide what runs, when and in which order.
--
-- A composition (pkg/eval/parse.go) names services, which depend on one another. pkg/composition
-- chooses among them by profile. pkg/depgraph checks the dependencies and puts the services in
-- levels, in which they are started and stopped. Once they run, pkg/health turns the results of
-- probes into a state, pkg/cri restarts what exits, pkg/logs reads what they wrote, and pkg/watch
-- compares the composition with its next version. pkg/orchestrate instead plans: it compares the
-- resources that a composition wants with the rollouts in its database, applies the difference
-- request by request, rolls back where a create fails, and keeps links between dependent resources in
-- two buckets of the database.
--
-- Prelude          shared names, Boolean tests, lists, texts, integers, dictionaries and sorting.
-- Eval             the composition types of pkg/eval/parse.go.
-- Samples          compositions that the examples run on.
-- Depgraph         pkg/depgraph/depgraph.go (`Validate`) and order.go (`StartOrder`, `StopOrder`).
--   Depgraph.Spec    what a dependency graph, a cycle and a greedy schedule are.
--   Depgraph.Order   the levels; Depgraph.Cycles: the depth-first search.
-- Composition.Filter  pkg/composition/filter.go (`FilterByProfiles`).
-- Composition.InitContainers  pkg/composition/initcontainers.go (`SynthesizeInitContainers`).
-- Health           pkg/health/probe.go (`ResolveProbe`) and monitor.go (`Register`, `run`, `State`).
-- Supervisor       pkg/cri/restart.go and supervisor.go (`Register`, `Stop`, `watchService`).
-- Logs             pkg/logs/parse.go and `collectEntries` of mux.go.
-- Watch            pkg/watch/diff.go (`DiffCompositions`).
-- Cri.ImageRef     pkg/cri/import.go (`ResolvedImageRef` and what it calls).
-- Orchestrate.Types   references, links, requests, deployments and rollouts.
-- Orchestrate.Plan    pkg/orchestrate/plan.go (`ComputePlan`, `Summary`).
-- Orchestrate.Links   pkg/orchestrate/state/dependencies.go (`AddLink`, `RemoveLink` and the reads).
-- Orchestrate.Deployment  pkg/orchestrate/deploy/deployment.go (`AddCreation`, `CheckReferences`,
--                     `PersistLinks`).
-- Orchestrate.Apply   pkg/orchestrate/apply.go (`executeDeletes`, `executeCreates`, `rollback`,
--                     `loadLinks`) and the `Process` methods of deploy/request.go.
-- Orchestrate.Topo    pkg/orchestrate/apply.go (`topoSortRequests`).
-- Orchestrate.Sync    pkg/orchestrate/engine.go (`ApplySync`, `State`, `Plan`, `Rollback`).
-- Orchestrate.Convert  pkg/orchestrate/convert/convert.go (`Convert`); Convert.Bridge: bridge.go
--                     (`Bridge`).
-- Orchestrate.Drift   pkg/orchestrate/engine.go (`DriftCheck`).
-- Orchestrate.Conditions  pkg/orchestrate/conditions.go (the choice of `waitCondition`).
-- Orchestrate.Pool    pkg/orchestrate/deploy/pool.go and worker.go (`Add`, `Cancel`, `Schedule`,
--                     `Stop`, `Run`, `handleRequest`), as a step relation.
--
-- A Go map is a list of entries, and a theorem on one holds for its entries in any order; where it
-- needs that no key stands twice it says so. Nil lists and maps are empty ones. A Go int that counts
-- is a number without bounds: the counts stay below the number of entries in memory. A product that
-- becomes a duration wraps around at 64 bits. Loops that Go writes as `for` without a bound, and the
-- recursion of the depth-first search, take fuel: one more than the number of services is enough for
-- the levels, since a round removes one at least, and for the search of the filter, since a service
-- enters its queue once; one more than the number of names is enough for the depth-first search,
-- since a path is no longer; one for each id of the batch is enough for the sort of requests, since an
-- id is released once. All four are proved. JSON bodies are their text. Loops that only the
-- context ends (a monitored check, a watched service) go over the list of what their rounds meet.
--
-- What is not under this repository's control is a parameter: `Bolt` (go.etcd.io/bbolt: a bucket is
-- a map, a write may fail and changes one key), `World` (providers, the context, saving, and the
-- polling of conditions, each answering by what was called before), `Round` and `Outside` (the
-- container runtime, the clock, the context and the network, as one round meets them), `Deployed`
-- (loading rollouts, and the providers' references), `Setting` (these and the keys of the buckets,
-- by the state they are read in), `Providers` (the registered definitions and the status that a
-- provider answers), `Registry` (the registered definitions), `canonical`, `marshal`, `parse_time`,
-- `parse_duration` and `read_log` (JSON, times and files), `digest` (a hash) and `lower` (the lower
-- case of a character).
-- Logging, printing, process execution, gRPC and the file system are not modelled, and neither are
-- the packages that consist of them.
pub mod Prelude
pub mod Eval
pub mod Samples
pub mod Depgraph
pub mod Orchestrate
pub mod Logs
pub mod Watch
pub mod Health
pub mod Supervisor
pub mod Composition
pub mod Cri
