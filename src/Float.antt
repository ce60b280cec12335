-- ===== src/Float.antt =====
-- Python's `float`, as far as the program uses it: decimal literals, the arithmetic, and the
-- comparisons, in which NaN answers `False`. The type and its operations are a parameter.
mod Defs
pub mod Milli
pub mod Order
pub use Defs.{Float, fmin, fmax, IsNum, IsOrdered}
