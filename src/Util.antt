-- ===== src/Util.antt =====
-- The numbers and strings of kernel/src/x86_64/utils/util.c that Shell/Text.antt does not have.
pub mod Chars
pub mod Number
pub mod Digits
pub mod Reverse
pub mod Decimal
pub mod Memory
pub mod Compare
pub mod Format
pub mod Within
pub mod Print
mod Tests
