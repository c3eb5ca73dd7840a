-- ===== src/Os.antt =====
-- The operating system: OS.h and OS.cpp, by what each group of functions does.
pub mod State
pub mod Scheduler
pub mod Swap
pub mod Heap
pub mod Sync
pub mod Load
pub mod Run
