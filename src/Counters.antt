-- ===== src/Counters.antt =====
-- thread_test/pthread_no_mutex.c and thread_test/pthread_have_mutex.c: two threads count to 100000 each in
-- one variable.
pub mod Racing
pub mod Locked
