-- ===== src/Thread.antt =====
-- thread/: the pool of workers, the scheduler of delayed tasks, and the workers.
pub mod Pool
pub mod Scheduler
pub mod Worker
pub mod Closing
pub mod Simulated
