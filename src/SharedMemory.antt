-- ===== src/SharedMemory.antt =====
-- process_test/shared_memory.c: a message goes from a process to its child through shared memory.
pub mod Setup
pub mod Processes
pub mod Exchange
