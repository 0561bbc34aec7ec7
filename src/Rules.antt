-- ===== src/Rules.antt =====
-- internal/rules/rulesengine.go.
pub mod Span
pub mod Sort
pub mod Pick
pub mod Engine
