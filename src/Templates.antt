-- ===== src/Templates.antt =====
-- src/index/template_store.rs: which templates belong to which controllers, and what a template
-- inherits from the templates that include it.
pub mod State
pub mod Matching
pub mod Bindings
pub mod Inheritance
pub mod Includes
pub mod Views
pub mod Resolution
pub mod Removal
pub mod Queue
pub mod Lookup
pub mod Merging
