-- ===== src/Thread.antt =====
-- thread/: the pool of threads.
pub mod Pool
