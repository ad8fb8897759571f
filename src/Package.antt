-- ===== src/Package.antt =====
-- The archives that jobs/package.py of src/manga_gateway writes. A text is the list of its code points.
pub mod Text
pub mod Entry
pub mod Path
pub mod Files
mod Tests
