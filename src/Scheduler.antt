-- ===== src/Scheduler.antt =====
-- network/kcp/timesched.go: tasks with deadlines, handed by one goroutine to several others, each of
-- which keeps a heap of them and one timer. Times are numbers on one clock.
mod Steps
pub mod Counting
pub mod Timing
pub mod Reaching
pub mod Tests
pub use Steps.*
