-- ===== src/Kinesis.antt =====
-- The stream service, crates/services/kinesis: streams of shards, the records put to them, and the
-- iterators that read them. Store holds the data, Shards what a request does to one stream, Handlers
-- the operations, Provider the dispatch; the other modules prove, and Tests instantiates.
pub mod Store
pub mod Shards
pub mod Handlers
pub mod Provider
pub mod Invariant
pub mod Reading
mod Tests
