-- ===== src/Analyzer.antt =====
-- The analysis of templates (src/analyzer/html): the parts that work on texts.
pub mod VariableParser
pub mod Directives
pub mod Expression
