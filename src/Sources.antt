-- ===== src/Sources.antt =====
-- The scrapers of src/manga_gateway/sources: what they compute themselves.
pub mod Comix
