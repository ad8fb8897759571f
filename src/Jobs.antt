-- ===== src/Jobs.antt =====
-- src/manga_gateway/jobs: the download jobs, their durable table, the manager and the engine.
pub mod Model
pub mod Row
pub mod Store
pub mod Manager
pub mod Engine
mod Tests
