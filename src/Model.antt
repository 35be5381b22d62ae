-- ===== src/Model.antt =====
-- The data that the analyzers produce and the stores keep (src/model). A URL is an opaque type
-- `Url` of the environment, with an equality.
pub mod Span
pub mod Location
pub mod Symbol
pub mod Html
pub mod Template
