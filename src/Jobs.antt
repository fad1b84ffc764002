-- ===== src/Jobs.antt =====
-- src/jobs: the job store and the download pipeline.
pub mod Types
pub mod Store
pub mod Pipeline
pub mod Slots
