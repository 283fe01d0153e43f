-- ===== src/Types.antt =====
-- python/conflictgraph/types.py: the records and enumerations that the other parts share.
pub mod NodeId
pub mod Enums
pub mod Stats
pub mod Prediction
pub mod Plan
pub mod Events
