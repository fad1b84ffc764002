-- ===== src/Extractor.antt =====
-- What a URL is taken for: src/extractor/patterns.ts.
pub mod Patterns
