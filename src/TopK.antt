-- ===== src/TopK.antt =====
-- python/min_heap.py: `MinHeap`, `TopK` and `MovieRentingSystem`.
pub mod Heap
pub mod Place
pub mod Pop
pub mod Push
pub mod Refines
pub mod History
pub mod Movies
mod Tests
