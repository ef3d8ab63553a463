-- ===== src/Watch.antt =====
-- internal/watch: the --watch polling loop.
pub mod Backoff
pub mod Poller
