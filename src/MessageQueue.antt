-- ===== src/MessageQueue.antt =====
-- process_test/mq_producer.c and process_test/mq_consumer.c: lines from the terminal go through a message
-- queue and are printed by another process.
pub mod Texts
pub mod Relay
