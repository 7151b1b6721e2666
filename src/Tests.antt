-- ===== src/Tests.antt =====
-- The theorems at concrete inputs that satisfy their conditions.
mod CommonExamples
mod LogExamples
mod MemoryExamples
mod ReadWriteExamples
mod TreeExamples
mod TxData
mod TxExamples
