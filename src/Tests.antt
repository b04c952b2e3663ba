-- ===== src/Tests.antt =====
-- Runs on small inputs, and the theorems at inputs that meet their hypotheses.
mod Chat
mod Web
mod Markdown
mod Run
mod Storage
mod Auth
mod OpenResponses
mod Server
