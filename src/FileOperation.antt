-- ===== src/FileOperation.antt =====
-- include/real_process/file_operation.hpp and src/real_process/file_operation.cpp: the recorded
-- file operations and their log.
pub mod Kind
pub mod Record
pub mod Log
pub mod Tracker
