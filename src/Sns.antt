-- ===== src/Sns.antt =====
-- The topic service, crates/services/sns: topics, subscriptions and the filter policies that choose what a
-- subscription receives.
pub mod Store
pub mod Handlers
pub mod Topics
pub mod Filters
mod Tests
