-- ===== src/TopK/Movies.antt =====
-- `MovieRentingSystem`, with the indices that it compares.
pub mod Index
pub mod Order
pub mod System
pub mod Stock
pub mod Changes
pub mod Rents
pub mod Shelves
pub mod Load
pub mod Serve
