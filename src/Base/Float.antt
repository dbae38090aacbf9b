-- ===== src/Base/Float.antt =====
-- Python's floats and decimals, as an interface: the literals, arithmetic and comparisons that
-- the program uses, and the laws of IEEE 754 that some theorems rely on.
mod Defs
pub mod Order
pub mod Fixed
pub use Defs.*
