-- ===== src/Chat.antt =====
-- internal/chat/service.go.
pub mod Parts
pub mod Session
pub mod Turn
