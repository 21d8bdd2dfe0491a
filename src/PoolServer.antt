-- ===== src/PoolServer.antt =====
-- socket_test/server_pthread_pool.c: `main` accepts connections into a bounded queue, and ten threads
-- serve one connection each.
pub mod Queue
pub mod Fifo
pub mod Threads
pub mod Wakeups
pub mod Client
pub mod Sends
pub mod Echo
pub mod Rounds
