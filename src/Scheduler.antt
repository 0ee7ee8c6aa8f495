-- ===== src/Scheduler.antt =====
-- The scheduler process. `Basic` is scheduler/src/schedulers/basic.rs, the node and placement
-- bookkeeping with the choice of a node; `Watch` is scheduler/src/main.rs, the two watch loops
-- and the tasks that they start.
pub mod Basic
pub mod Watch
