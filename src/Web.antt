-- ===== src/Web.antt =====
-- internal/web/server.go.
pub mod Job
pub mod Wire
pub mod View
pub mod Run
pub mod Sessions
pub mod Server
pub mod Signing
pub mod Routes
pub mod Registry
pub mod OneTurn
pub mod Locked
pub mod Renewal
pub mod Granted
