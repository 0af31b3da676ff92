-- ===== src/Support.antt =====
-- include/vfn/support: words of the machine and alignment.
mod Tests
pub mod Bits
pub mod Word
pub mod Int
pub mod Align
