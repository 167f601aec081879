-- ===== src/Proc.antt =====
-- The process table and scheduler of Project2b/xv6/kernel/proc.c (a multi-level feedback queue),
-- with the timer tick of trap.c. A process pointer is the index of its slot. An operation is
-- one function of the table, as if nothing ran in between.
pub mod Table
pub mod Queue
pub mod Wakeup
pub mod Life
pub mod Sched
pub mod Tick
mod Tests
