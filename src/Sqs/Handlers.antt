-- ===== src/Sqs/Handlers.antt =====
-- crates/services/sqs/src/provider.rs, lines 351 to 846: the operation handlers of the query protocol.
pub mod Reply
pub mod Queues
pub mod Messages
pub mod Batches
