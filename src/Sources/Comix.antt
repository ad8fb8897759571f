-- ===== src/Sources/Comix.antt =====
-- src/manga_gateway/sources/comix.py.
pub mod Cipher
pub mod Scramble
pub mod Jigsaw
pub mod Unscramble
pub mod Pages
pub mod Deferred
mod Tests
