-- ===== src/Kms.antt =====
-- The key service, crates/services/kms: keys with their states, aliases and tags, and the operations that
-- use a key. Store is the data, Handlers the arms of `dispatch`, Provider the dispatch; the other modules
-- prove, and Tests instantiates.
pub mod Store
pub mod Handlers
pub mod Provider
pub mod Invariant
pub mod Keys
pub mod Answers
pub mod Random
mod Tests
