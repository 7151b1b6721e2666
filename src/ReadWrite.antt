-- ===== src/ReadWrite.antt =====
-- src/stm/read_write.h, for the 64-bit build of x86 (TLSTM_64, ALLOW_UNALIGNED_ACCESSES): transactional
-- reads and writes of 1, 2, 4 and 8 bytes and of regions, on top of the words that a transaction
-- reads and writes.
pub mod Union
pub mod Read
pub mod Write
pub mod Float
pub mod Region
pub mod Memset
pub mod Strings
