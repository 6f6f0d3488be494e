-- ===== src/Synch.antt =====
-- kern/thread/synch.c: semaphores, locks and condition variables, each as the threads that call
-- it see it, a shared access at a time.
pub mod Semaphore
pub mod Lock
pub mod Cv
