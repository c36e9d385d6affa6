-- ===== src/Proc.antt =====
-- kernel/src/proc: the process table, its run queue and the console's holders.
pub mod Queue
pub mod Holders
pub mod Process
pub mod Table
mod Tests
