-- ===== src/KvStore.antt =====
-- python/persist_kv_store.py: a store of timed values, and the byte format that it is saved in.
pub mod Codec
pub mod Store
mod Tests
