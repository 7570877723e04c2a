-- ===== src/Filter.antt =====
-- internal/filter: the privacy blocklist, the content classifier and the engagement score.
pub mod Blocklist
pub mod Classifier
pub mod Engagement
