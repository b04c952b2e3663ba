-- ===== src/Markdown.antt =====
-- internal/markdown: the block streamer and the inline parser of super- and subscripts.
pub mod Streamer
