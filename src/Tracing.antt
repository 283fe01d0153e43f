-- ===== src/Tracing.antt =====
-- python/conflictgraph/tracing.py: whose event an event is, and what becomes of the events.
pub mod Registry
pub mod Sink
pub mod Account
pub mod Delivered
