-- ===== src/Reverse.antt =====
-- `ReverseExecutor` (include/real_process/reverse_executor.hpp, src/real_process/
-- reverse_executor.cpp): taking recorded file operations back.
pub mod Options
pub mod Validate
pub mod Steps
pub mod Operation
pub mod Batch
pub mod Preview
pub mod Restores
