-- ===== src/Storage.antt =====
-- src/storage-subsystem: the interface of the memory models, and the four of them.
pub mod Interface
pub mod Access
pub mod Sc
pub mod Tso
pub mod Pso
pub mod Sra
mod TsoExamples
mod PsoExamples
mod SraExamples
