-- ===== src/BookMyShow.antt =====
-- python/segment-tree.py: seats of a show, booked together in one row or scattered over the first
-- rows. Numbers of seats and rows are naturals.
pub mod Tree
pub mod Print
pub mod Booking
pub mod Rows
pub mod Shows
pub mod Gather
pub mod Allowed
pub mod Scatter
pub mod Construct
pub mod Refines
mod Tests
