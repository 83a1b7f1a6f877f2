-- ===== src/Exec.antt =====
-- What EXEC of cmd_transactions.go does, the check of the watched keys and the commands that were queued; and what a push
-- does to a connection that waits.
pub mod Watch
pub mod Watching
pub mod Serial
pub mod Wakes
pub mod Flush
