-- ===== src/Lib.antt =====
-- Process Snapshot saves the state of a program or of a Linux process as checkpoints and takes it
-- back to one of them. This library models the parts of it that hold the saved states and the
-- records of what was done.
--
-- The parts, from the bottom up. The serializers (src/core/serializer.cpp) compress byte strings,
-- compute checksums and write integers. The state records (src/state/state_manager.cpp) are
-- checkpoints, their metadata and operation records, each with a binary format. A storage
-- (src/state/storage.cpp) keeps a byte string under each checkpoint id: in memory, in files, or in
-- both. The state manager (src/state/state_manager.cpp) creates checkpoints, keeps them in a map,
-- writes each one through its storage, saves the current state from a thread of its own and reads
-- the storage when it is opened. The file operation log (src/real_process/file_operation.cpp)
-- records changes of files, marks where checkpoints lie between them and is stored in a format of
-- its own. The rollback engine (src/rollback/rollback_engine.cpp) plans and runs the way back to a
-- checkpoint over the manager, the logger and the file operations, and keeps the states it left for
-- an undo; AutoRollbackManager is a thread that looks for damaged checkpoints and starts one. The
-- file operation tracker (src/real_process/file_operation.cpp) is told before and after each change
-- of a file and records in the log what it takes to undo the change, and the reverse executor
-- (src/real_process/reverse_executor.cpp) undoes the recorded operations, newest first. The ASLR
-- handler (src/real_process/aslr_handler.cpp) compares the memory maps of a process at a checkpoint
-- and now, and moves the addresses that a dump of its memory holds. The ptrace controller
-- (src/real_process/ptrace_controller.cpp) traces a process and reads and writes its registers and
-- its memory, and the process checkpointer in the same file takes a checkpoint of a stopped process
-- with it, puts one back and compares two. The memory manager (src/real_process/memory_manager.cpp)
-- compares the memory maps of a process at a checkpoint and now, and makes mappings in it by system
-- calls that it injects. The operation logger (src/logger/operation_logger.cpp) keeps log entries
-- and operation records and writes the entries to its outputs, at once or from a thread.
--
-- Files. Prelude has the shared names, lists and tests on native numbers. Wire has little-endian
-- integers and readers of byte strings (include/core/serializer.hpp). Types has the enums and
-- Result (include/core/types.hpp). Utils has times and identifiers (include/utils/helpers.hpp).
-- Serializer has Rle (compress, decompress), Checksum (calculateChecksum, verifyChecksum), Json
-- (JsonSerializer) and Xor, laws of the exclusive or. OrderedMap stands for std::map with numbers
-- for keys. State has Metadata (CheckpointMetadata), Checkpoint and OperationRecord. Storage has
-- the interface IStorage with its contract IsStorage, Memory (MemoryStorage), Files (FileStorage)
-- and Hybrid (HybridStorage). Manager is StateManager, with Contract for its operations, Invariant
-- for its map of checkpoints and Restart for what a storage gives back. FileOperation has Kind
-- (FileOperationType), Record (FileOperation) Log (FileOperationLog) and Tracker
-- (FileOperationTracker), with Filter for shouldTrackFile, PathMap for std::map with paths for
-- keys, and Moves for deletions, renamings and creations. FileSystem has the calls on files as an
-- interface, with Contents for the bytes of a file. Reverse is ReverseExecutor: Options and its
-- filter, Validate (canReverse, validateReverse), Steps for each type of operation, Operation
-- (reverseOperation), Batch (reverseOperations), Preview, and Restores for the contents of the
-- files after a reversal. Memory has MemoryRegion (include/real_process/real_process_types.hpp),
-- and Snapshot is RealProcessCheckpoint (src/real_process/real_process_types.cpp), with Format for
-- its binary format. Aslr is ASLRHandler (src/real_process/aslr_handler.cpp), with Relocate
-- (relocatePointers), Strategy (recommendStrategy), and Laws and Counts for what a relocation does.
-- Kernel has the calls of Linux that trace a process as an interface, with Memory for bytes at an
-- address. Ptrace is PtraceController, with Words for the transfer of memory, Writing and Reading
-- for what it moves, Keeps for what a call leaves as it is, Lifetime and Answering. Checkpointer is
-- RealProcessCheckpointer with its options and results: Create (createCheckpoint), Restore
-- (restoreCheckpointEx), with Success, Complete, Trip and Stored for what a restore achieves, and
-- Compare (compareCheckpoints). MemoryManager has Regions, Compare (compareAddressSpace), Inject
-- (injectSyscall), with Executed for the call that the process makes, and Prepare
-- (prepareForRestore), with Mapped. Proc has the parts of ProcFSReader
-- (src/real_process/proc_reader.cpp) that read the content of a file under /proc. Logger is
-- OperationLogger, with Steps and Switching for its threads, Rollback is RollbackEngine, with Plan
-- for its records, Undo, Partial (partialRollback), Files for a rollback with the executor and
-- Watch (AutoRollbackManager). Tests has the theorems at concrete inputs.
--
-- State is passed explicitly: an operation takes the state and returns its result and the new
-- state. A method that holds a mutex is one step, and threads are steps of a relation that come in
-- any order; the logger, whose methods and thread let the mutex go or do without it, has one step
-- for each part that holds it and for each write that does not. An operation takes the clock
-- readings it makes and the counter of IdGenerator as arguments. The names are those of the source
-- in lower case with underscores.
--
-- Assumptions. Integers lie in memory as on x86-64, lowest byte first. A signed field is its bit
-- pattern, and times are not before the epoch. The data in memory together are shorter than 2 ^ 64
-- bytes. The file system is a parameter: FileSystem has its calls and IsFileSystem what the proofs
-- use of them. Different paths name different files, std::filesystem::exists does not throw, and a
-- write to an open file completes in the theorems, not in the definitions. std::sort leaves the
-- order of equal timestamps open, where the model keeps that of the list, and the theorems ask for
-- different ones. The tracing of a process is a parameter too: Kernel has the calls and IsKernel
-- how they read and change memory and registers; a stopped process does not run, and nothing is
-- said of it after it is let go. A ProcReader gives what the source reads under /proc. Addresses of
-- a process lie below 2 ^ 63. A reader gives `none` where the source would read past the end of a
-- vector, which is undefined there. An enum has one more constructor for stored integers outside
-- its enumerators. The result of a std::optional that the source dereferences after a test for
-- success is the value itself.
--
-- Fuel. compress_loop takes the length of its input, and each round takes a byte at least. merge
-- takes one more than both lengths together, and each round takes an element. The loops over the
-- words of memory take (size + 7) / 8 rounds, as many as the source goes through. The loops of the
-- log's deserialize take the counts that were read, as the source does.
--
-- Not modelled: FileStorage::cleanup (the file storage inside the hybrid storage is a parameter
-- with the contract IsStorage); reading and writing whole files in saveToFile and loadFromFile; the
-- rotation of log files and the destructor of OperationLogger; the progress callbacks;
-- SyscallInterceptor (src/real_process/reverse_executor.cpp), which traces a process; the parts of
-- ASLRHandler that read /proc and ELF files or start processes, the timed wait, getPendingSignals
-- and ScopedAttach of PtraceController, the files of saveCheckpoint and loadCheckpoint, the binding
-- of MemoryManager to a process and ASLRConfig, the lines of /proc/pid/maps, stat and status, and
-- the other parts that call the kernel or read /proc (the other files of src/real_process). src/cli
-- and src/main.cpp are input and output.
pub mod Prelude
pub mod Wire
pub mod Types
pub mod Utils
pub mod Serializer
pub mod OrderedMap
pub mod Snapshot
pub mod Kernel
pub mod Ptrace
pub mod Checkpointer
pub mod State
pub mod Storage
pub mod Manager
pub mod FileSystem
pub mod FileOperation
pub mod Memory
pub mod Aslr
pub mod Reverse
pub mod Logger
pub mod Rollback
pub mod Tests
pub mod MemoryManager
pub mod Proc
