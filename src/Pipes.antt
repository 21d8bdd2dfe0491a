-- ===== src/Pipes.antt =====
-- The programs of process_test that talk through a pipe or a FIFO.
pub mod Unnamed
pub mod Copied
pub mod Fifo
pub mod Pieces
