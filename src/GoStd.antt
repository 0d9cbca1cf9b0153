-- ===== src/GoStd.antt =====
-- Go's standard library, as far as the modelled files call it: encoding/hex and strconv.
pub mod Hex
pub mod Strconv
pub mod Decimal
pub mod Strings
pub mod Atoi
