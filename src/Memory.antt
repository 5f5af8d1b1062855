-- ===== src/Memory.antt =====
-- The byte memory that raw loads, stores and `std::ptr::copy` of vmkit/src work on. It stands for
-- the machine, and for no single source file. Words are little-endian, and the bytes of a value
-- are written from its lowest one up.
mod Defs
mod Laws
unfoldable pub use Defs.*
pub use Laws.*
