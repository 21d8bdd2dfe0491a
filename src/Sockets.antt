-- ===== src/Sockets.antt =====
-- The small programs of socket_test with one connection each.
pub mod Programs
pub mod Closing
