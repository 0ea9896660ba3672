-- ===== src/Coding.antt =====
-- Coding challenges: lib/accuracy.ts, lib/antiCheat.ts, lib/codingChallenges.ts,
-- routes/vulnCodeSnippet.ts and routes/vulnCodeFixes.ts of
-- test-container/rootfs/juice-shop.
pub mod Accuracy
pub mod AntiCheat
pub mod Snippets
pub mod Fixes
pub mod Extraction
