-- ===== src/State.antt =====
-- include/state/state_manager.hpp and src/state/state_manager.cpp.
pub mod Metadata
pub mod Checkpoint
pub mod OperationRecord
