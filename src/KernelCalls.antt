-- ===== src/KernelCalls.antt =====
-- The kernel calls of KernelCalls/ that go through the scheduler, and the code that each goes on with
-- when its process runs again.
pub mod Lock
pub mod Cvar
pub mod Pipe
pub mod Wait
pub mod General
pub mod Fork
pub mod Exec
pub mod Failure
pub mod Copying
pub mod Mutex
pub mod Stream
pub mod Wakeup
pub mod Collecting
pub mod Reaping
mod Tests
