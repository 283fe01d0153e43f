-- ===== src/Graph.antt =====
-- python/conflictgraph/graph.py: the test-resource graph, its candidate pairs and their features,
-- and the heuristic predictor.
pub mod Access
pub mod State
pub mod Pairs
pub mod Counters
pub mod Features
pub mod Consistent
pub mod Candidates
pub mod Counts
pub mod Heuristic
pub mod Scores
