-- ===== src/Pc.antt =====
-- kernel/pc/pc.c and include/zjunix/pc.h: processes and their scheduling. The children hold the state with
-- its queues (`Queues`), the scheduler (`Scheduler`) and the life of a process (`Life`), and
-- below them what is proved of each. Context switches in assembly, the interrupt flag, messages
-- and `runuserprog` are no part of it.
pub mod Queues
pub mod Scheduler
pub mod Life
pub mod Unlink
pub mod QueueLaws
pub mod Rotation
pub mod Choice
pub mod Invariant
pub mod Steps
pub mod Reach
pub mod Endings
pub mod Waking
pub mod Leaving
pub mod Exit
pub mod Kill
mod Tests
