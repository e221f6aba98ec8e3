-- ===== src/Scheduler.antt =====
-- scheduler: the job queue, the tasks and their collection.
pub mod Queue
pub mod Watchers
pub mod Task
pub mod Service
mod Samples
