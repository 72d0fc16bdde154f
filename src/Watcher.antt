-- ===== src/Watcher.antt =====
-- internal/watcher: the poller of a revision (`Poller`), the cleanup of sessions (`Cleanup`) and the
-- election of the replica that runs it (`Leader`).
pub mod Poller
pub mod Cleanup
pub mod Leader
