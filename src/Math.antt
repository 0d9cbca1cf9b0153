-- ===== src/Math.antt =====
-- pkg/common/math.
pub mod Integer
pub mod Power
pub mod Bits
pub mod Big
