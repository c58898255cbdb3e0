-- ===== src/Tests.antt =====
-- The theorems at concrete inputs, one file per part of the program.
mod Files
mod Serializer
mod Machine
mod MemoryManager
mod Proc
mod Ptrace
mod Snapshot
mod State
mod Storage
mod Manager
mod FileOperation
mod Logger
mod Rollback
mod Reverse
mod Steps
mod Tracker
mod Restore
mod Aslr
