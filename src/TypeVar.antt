-- ===== src/TypeVar.antt =====
-- python/type_var.py: function types with type variables.
pub mod Types
pub mod Fits
pub mod Text
pub mod Ends
pub mod Least
pub mod Return
mod Tests
