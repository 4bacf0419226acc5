-- ===== src/GroupCommit.antt =====
-- python/group_commit.py: `GroupCommit.commit`, called by any number of threads.
pub mod Steps
pub mod Safety
mod Tests
