-- ===== src/PathCd.antt =====
-- python/path_cd.py: paths, `cd`, and links that may go round for ever.
pub mod FilePath
pub mod Normal
pub mod Text
pub mod Links
pub mod Endless
pub mod Route
mod Tests
