-- ===== src/Semaphores.antt =====
-- thread_test/sem_pro_con_prob.c: a producer and a consumer on a buffer of ten places, with one semaphore
-- for the places that are empty and one for those that are full.
pub mod System
pub mod Order
pub mod Progress
