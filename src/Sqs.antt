-- ===== src/Sqs.antt =====
-- crates/services/sqs: the queue service.
pub mod Ids
pub mod Message
pub mod Queue
pub mod Store
pub mod Params
pub mod Xml
pub mod Handlers
pub mod JsonHandlers
pub mod Provider
mod Tests
