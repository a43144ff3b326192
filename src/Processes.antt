-- ===== src/Processes.antt =====
-- Processes that fork, wait and exit.
pub mod WaitPid
