-- ===== src/Libc.antt =====
-- The functions of the C standard library that the program's text formats go through.
pub mod Decimal
pub mod Scan
pub mod RoundTrip
pub mod Setting
