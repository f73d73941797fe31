-- ===== src/Libc.antt =====
-- What the sources use of the C standard library: character classes, and the conversions of
-- `sprintf` and `sscanf` (newlib, `int` of 32 bits).
pub mod Copy
pub mod Float
pub mod Hex
pub mod Decimal
pub mod Text
