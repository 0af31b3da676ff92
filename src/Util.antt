-- ===== src/Util.antt =====
-- src/util: the skip list.
pub mod Links
pub mod Skiplist
