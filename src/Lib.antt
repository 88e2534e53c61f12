-- ===== src/Lib.antt =====
-- HavocForge: a generator of streaming test data with injected faults. This library models the
-- parts of the program that decide what happens: which faults a request gets and in what order,
-- which schema drifts are active, which revision of a schema counts, and how much a client is
-- given.
--
-- The parts, and the files that model them:
--   Chaos/Op, Chaos/Manager, Chaos/Request: `ChaosManager` of havocforge/chaos/manager.py, with the
--     interface of the ops in havocforge/chaos/ops/base.py. `plan` is what `apply` selects, splits
--     and limits; `execute_ops` is `_execute_ops`; `apply` is the whole call.
--   Chaos/Layer, Chaos/Drift: `DriftCoordinator` of havocforge/chaos/drift/coordinator.py, the
--     registry of drift layers that the drift ops fill and that each request hits. The manager
--     reaches it through `World`.
--   Chaos/Temporal: `TemporalTracker` of havocforge/chaos/trackers/temporal_tracker.py.
--   Schema/Registry, Schema/Contracts: `SchemaRegistry` of havocforge/schema/registry.py, whose
--     revisions the drift ops make.
--   Schema/Specs: the tree of a schema's contracts, with `_flatten` of
--     havocforge/schema/builder.py, which names its nodes by paths, and the reading of paths of
--     data_drift.py.
--   Core/Registry: `Registry` of havocforge/registry.py and `GeneratorFactory.resolve` of
--     havocforge/core/factory.py.
--   Server/RateLimiter: `AdaptiveRateLimiter` of server/rate_limiter.py.
--   Server/IpRateLimiter: `IpRateLimiter` of demo/rate_limit.py.
--   Server/UserState: the batches of a user's stream in server/routers/streaming/state.py.
--   Server/Session, Server/Stream: `stream_schema` of server/routers/streaming/handler.py with the
--     helpers of that file, a client of the rate limiter, of the user state and of the cache.
--   Chaos/Burst, Chaos/LateArrival: two ops, havocforge/chaos/ops/network/burst.py and
--     havocforge/chaos/ops/body/late_arrival.py, the latter a client of the tracker.
--   Chaos/DriftOps, Chaos/SchemaDrift: the ops of havocforge/chaos/ops/drift. DriftOps is `apply`
--     of both, a client of the drift registry; SchemaDrift is how schema_drift.py changes the
--     fields of an object.
--   Chaos/DataDrift: the replacement of a contract by its path in data_drift.py, a client of
--     Schema/Specs.
--   Chaos/Nodes, Chaos/ListShuffle: the walk over a JSON body in havocforge/chaos/ops/utils.py, and
--     the op of havocforge/chaos/ops/body/list_shuffle.py.
--   Chaos/Latency: the op of havocforge/chaos/ops/server/latency.py, with the cost that the
--     manager's budget counts.
--   Chaos/Faults: the ops that answer with an error, http_error.py and http_mismatch.py of
--     havocforge/chaos/ops/error and havocforge/chaos/ops/header/auth_fault.py.
--   Config/Tree, Config/Manager, Config/Access, Config/Path: havocforge/config. `load` of the
--     manager applies override files to defaults, access.py shares one manager and reloads it,
--     utils.py splits and joins paths.
--   Pregeneration/Worker, Pregeneration/Cache: havocforge/pregeneration/worker.py, which fills a
--     queue in Redis, and what streams and requests do to that queue and its counters, the items
--     that a stream puts back included.
--   Persistence/BatchSync: `_sync_batch` of havocforge/persistence/batch_sync.py, which moves
--     datasets from Redis to PostgreSQL, and the rounds of its `start`, with the calls of
--     client.py.
--   Persistence/Storage: `StorageManager` of havocforge/persistence/storage.py, which saves,
--     retrieves and deletes datasets in both databases; the batch sync runs between its calls, and
--     the end of a dataset's time in either database is a step of its own.
--   Base: lists, dicts in insertion order, integers, results and texts. Tests: concrete runs.
--
-- A method is a function of its object's state that returns the new state with its result; what a
-- lock makes atomic is one such function. Exceptions are values of a result type, and the state
-- that a raising call leaves is returned beside them. The modules below a part hold its proofs.
--
-- Choices. Clock readings are arguments, one for each reading of the source: microseconds for the
-- rate limiter of the server, whose tokens are counted in millionths so that a refill is exact; the
-- rounding of floats is not modelled. Probabilities are whole numbers of 2^-53, weights integers,
-- and counts and limits natural numbers. `random` is a record of functions with the bounds that its
-- documentation states, metadata of drift layers a type with a lawful equality, an op a function
-- that may raise. Schema documents stand on a heap, so that shallow copies share them; their other
-- fields are left out. The schema builder, `setattr`, Redis, `parse_timestamp` and the texts of
-- `datetime` are parameters. So are pydantic's models, as objects on a heap that an assignment may
-- refuse. Of Redis the commands that are called are modelled, each call with whether it raises
-- before or after it had its effect; a stream's steps and a worker's are one sequence in any order.
-- Dicts and lists of a JSON body stand on a heap, since ops change them while they walk over them;
-- the walk runs for any number of nodes, and what is stated holds for each. A round of the worker
-- is one pass of its endless loop, so a run is as many rounds as there are answers from outside.
-- The loop of `_root_name` runs on fuel, one round for each entry: enough in every registry that
-- calls lead to, where a name that is registered as a child is new and its parent is there.
--
-- A turn of a stream is one pass of its loop, and takes what the outside answers in it: whether a
-- call succeeds, the readings of the clock, the items that are generated and what the chaos makes
-- of a batch.
--
-- Not modelled: the start of a stream where it raises, the metadata of its fields, the start of the
-- worker's tasks, the other ops and the generators, the YAML files and the models of the
-- configuration, metrics, agents, the routers and the demo's pages. They are I/O, glue, or
-- libraries' work.
pub mod Base
pub mod Chaos
pub mod Server
pub mod Core
pub mod Schema
pub mod Config
mod Tests
pub mod Pregeneration
pub mod Persistence
