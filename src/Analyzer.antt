-- ===== src/Analyzer.antt =====
-- breachscope/analyzer.py and breachscope/rule_field_compare.py: rules are matched against events.
pub mod Texts
pub mod Windows
pub mod FieldCompare
pub mod Matcher
pub mod Rules
pub mod Deduplication
pub mod Chunks
pub mod Parallel
pub mod AnyOrder
mod Examples
