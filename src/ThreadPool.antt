-- ===== src/ThreadPool.antt =====
-- thread_test/thread_pool.c: a bounded queue of tasks, one thread that submits and three that work.
pub mod Queue
pub mod Fifo
pub mod Workers
