-- ===== src/Downloader.antt =====
-- What is downloaded, and where to: src/downloader/.
pub mod Direct
pub mod Select
pub mod Names
pub mod Run
mod Tests
