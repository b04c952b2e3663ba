-- ===== src/Storage.antt =====
-- internal/storage.
pub mod Messages
pub mod Accounts
pub mod Conversations
