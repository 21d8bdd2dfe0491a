-- ===== src/ParentChild.antt =====
-- process_test/mq_p&s.c: a parent sends ten messages to its child through a message queue.
pub mod Steps
pub mod Texts
pub mod Runs
pub mod Ends
