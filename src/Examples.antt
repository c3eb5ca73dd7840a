-- ===== src/Examples.antt =====
-- The theorems at concrete inputs: small states of the MMU, the CPU and the OS, and short texts.
pub mod Memory
pub mod Loading
pub mod Pages
pub mod Processor
pub mod Processes
pub mod Running
pub mod Source
