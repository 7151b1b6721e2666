-- ===== src/Common.antt =====
-- src/stm/constants.h and the small classes of src/stm/common/.
pub mod Constants
pub mod VersionLock
pub mod Timestamp
pub mod LargeLockSet
pub mod Sampling
