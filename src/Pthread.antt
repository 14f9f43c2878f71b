-- ===== src/Pthread.antt =====
-- perf_simulation/Pthread: the POSIX threads of the simulated program, as the front end keeps them.
pub mod Mutex
pub mod Barrier
pub mod Cond
mod Tests
