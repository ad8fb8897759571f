-- ===== src/Handles.antt =====
-- src/manga_gateway/handles/store.py: the opaque handles of releases.
pub mod Record
pub mod Store
mod Tests
