-- ===== src/Core.antt =====
-- The crate dignus-actor-core.
pub mod Outcome
pub mod Registry
pub mod Queue
pub mod Dispatcher
pub mod Runner
pub mod System
pub mod DeadLetter
pub mod Yield
pub mod Await
pub mod References
pub mod Context
pub mod Ask
pub mod PollDriver
pub mod Wakes
