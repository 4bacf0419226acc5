-- ===== src/MinSql.antt =====
-- python/min_sql.py: a table in memory, and queries of it.
pub mod Value
pub mod Table
pub mod Query
mod Tests
