-- ===== src/Handlers.antt =====
-- The request handlers (src/handler), which answer from the index.
pub mod SemanticTokens
pub mod Symbols
pub mod Resolve
pub mod References
pub mod Highlights
pub mod Definition
pub mod Rename
pub mod Diagnostics
pub mod CodeLens
