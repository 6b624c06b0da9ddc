-- ===== src/Malloc.antt =====
-- src/vgc_malloc.c, over the memory of Memory.antt. Its children hold the functions; a function of
-- the source that needs the system takes it as its first argument.
pub mod Locks
pub mod Check
pub mod Region
pub mod Block
pub mod Release
pub mod Api
pub mod Entry
pub mod Alone
pub mod Address
pub mod Faults
pub mod Sizes
pub mod Dump
pub mod CheckMmap
pub mod Shown
pub mod Quiet
pub mod Stop
pub mod Balance
pub mod Start
