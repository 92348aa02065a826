-- ===== src/Scheduler.antt =====
-- src/cacheflow/scheduler/scheduler.h and scheduler.cpp.
--
-- Groups live in `memory`, and the queues, the request map and the output hold pointers into it,
-- as the `unique_ptr`s and raw pointers of the C++ do. A method returns `none` where the C++ has
-- undefined behaviour: a block id out of range, or the first sequence of a group that has none.
-- The scheduler's mutex is held throughout a method.
pub mod State
pub mod Sequences
pub mod Phases
pub mod Api
pub mod Good
pub mod Rounds
pub mod Sort
pub mod Schedule
pub mod Allocate
pub mod Books
pub mod Recompute
pub mod Total
pub mod Requests
