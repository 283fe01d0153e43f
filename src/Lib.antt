-- ===== src/Lib.antt =====
-- A verification library for ConflictGraph, the test scheduler under python/conflictgraph: it models
-- the Python program and proves what makes its parts correct.
--
-- The program traces the resources that tests touch (tracing.py), normalizes them (normalize.py),
-- keeps who accessed what in a graph (graph.py), turns the pairs of tests that share a resource into
-- features and predictions (graph.py, model.py), schedules the tests on workers so that those likely
-- to conflict do not run at once (scheduler.py), and runs the schedule (executor.py). config.py says
-- how, cli.py puts the parts together, and storage.py keeps what they find.
--
-- The files, by the part of the program that they model:
--   Prelude     what Python's lists, dicts, sets, sorting, strings and floats are here
--   Types       the records and enumerations of python/conflictgraph/types.py, `NodeId` for
--               TestIdentity.from_pytest_nodeid, and `is_mutating` of normalize.py
--   Normalize   python/conflictgraph/normalize.py: ResourceNormalizer, `Path` for its paths
--   Graph       python/conflictgraph/graph.py: `Access` is AccessAggregate, `State` TestResourceGraph,
--               `Pairs` candidate_pairs, `Features` and `Counters` pair_features, `Heuristic`
--               HeuristicPredictor
--   Dataset     python/conflictgraph/dataset.py: `Build` is DatasetBuilder.build; the splits
--   Model       python/conflictgraph/model.py: what its numbers do to the predictions; `Temperature`
--               is TemperatureScaler, `Batches` GNNTrainer's batches, `Training` GNNTrainer.fit,
--               `Tensors` graph_tensors, `Artifact` GNNTrainer.save and predict_artifact
--   Scheduler   python/conflictgraph/scheduler.py: `Risk` is RiskIndex and the constructor, `Queue`
--               the order of the tests, `Placement` the cost and risk of a placement, `Place` the
--               placement loop, `Refine` the refinement, `Static` static_schedule, `Baselines` the
--               random and the serial scheduler
--   Tracing     python/conflictgraph/tracing.py: `Registry` is AttributionRegistry, `Sink` EventSink with
--               one submitting thread, ReplayTracer and require_quality
--   Benchmark   python/conflictgraph/benchmark.py: simulate_schedule and, in `Trials`, aggregate_trials
--               and run_replay_benchmark from its strategies on
--   Metrics     python/conflictgraph/metrics.py on lists in place of arrays
--   Executor    python/conflictgraph/executor.py: `Collect` is PytestAdapter, `Workers` execute, as
--               the steps of its workers in any order, `Outcome` _run_one and what it makes of the
--               output, and update_duration_stats
--   Storage     python/conflictgraph/storage.py: ArtifactStore, over a dictionary of files
--   Config      python/conflictgraph/config.py: validate, apply_environment and, in `Mapping`,
--               from_mapping
--   Cli         python/conflictgraph/cli.py: the helpers of its commands, and `plan`, which joins the
--               configuration, the stored graph and the scheduler; `Run` is `run`, which gives the
--               schedules of `plan` to the executor and writes down what comes of them
--   Api         python/conflictgraph/api.py: the handlers over the artifacts that the other parts
--               store; `Counters` is the middleware that counts requests
--   Samples     concrete runs
-- The other modules below these hold proofs. The definitions keep the names of the source; a method
-- takes its object as an argument and returns the object after it.
--
-- How Python is read. A string is the list of its code points (`Text`). A dict is an association list
-- in order of insertion, a set a list without repetition; where the program iterates over a set, the
-- order is that of insertion. A float is any type with the operations of `Prelude.Float`; the theorems
-- about order ask for the laws of `IsOrdered`, which hold of IEEE 754 numbers that are not NaN. Times
-- in nanoseconds and counts are natural numbers. UUIDs, clocks, random draws, hashes, the environment,
-- what `json` prints and reads, and what `str`, `int` and `ipaddress` say of a text are parameters; so
-- is what normalizing and writing an event ends with in Tracing. An exception is a `none`, an empty result or an
-- error value, as the comment at the definition says.
--
-- Loops run on fuel where the source's do not follow a list: the placement loop has the number of
-- waiting tests, since each turn places one; the binary search has the length of the lane; the walk up
-- the parents of a process has two turns more than there are known children, since no pid is visited
-- twice. Theorems show that the fuel suffices.
--
-- A run of a schedule has no fuel: it is a sequence of steps of any length, and a theorem bounds the
-- length.
--
-- The epochs of a training and the steps of a temperature search follow lists, the temperatures of a
-- grid and the numbers of a range, and need no fuel.
--
-- Not modelled: files but for the artifacts, sockets, the control of subprocesses, SQL and YAML, which
-- are I/O. What numpy, torch and LightGBM compute is a parameter of the modules that call them; the
-- layers of the network and the estimators of TabularBaseline are left out with it. Of the
-- API, the handlers take the arguments that FastAPI has checked, and the counter of prometheus is a
-- dictionary; the health report, the latency histogram and the start of the application are left out. So are
-- the synthetic world and the strategies of benchmark.py, which are data and calls of the other parts,
-- the text of its report, and diagnostics.py, which probes the host. The Go
-- control plane, the eBPF tracer and the dashboard are in other languages.
pub mod Prelude
pub mod Types
pub mod Graph
pub mod Scheduler
pub mod Config
pub mod Benchmark
pub mod Executor
pub mod Dataset
pub mod Normalize
pub mod Model
pub mod Tracing
pub mod Storage
pub mod Metrics
pub mod Cli
pub mod Api
pub mod Samples
