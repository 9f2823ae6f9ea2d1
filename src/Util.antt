-- ===== src/Util.antt =====
-- util/: the hexadecimal codec. (util/platform.cpp only calls the operating system.)
pub mod Hex
pub mod Decimal
