-- ===== src/Scheduler.antt =====
-- python/conflictgraph/scheduler.py. The definitions stand in Risk, Placement, Refine, Static and
-- Baselines; the other modules hold what is proved of them.
pub mod Risk
pub mod Placement
pub mod Refine
pub mod Queue
pub mod Place
pub mod Static
pub mod Symmetry
pub mod Lanes
pub mod Search
pub mod Exposed
pub mod Choice
pub mod Removal
pub mod Progress
pub mod Rounds
pub mod Swap
pub mod Refined
pub mod Packed
pub mod Start
pub mod Correct
pub mod Baselines
