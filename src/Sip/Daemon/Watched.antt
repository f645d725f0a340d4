-- ===== src/Sip/Daemon/Watched.antt =====
-- The descriptors that the loop of src/sip_daemon.c watches, and the scans over them.
pub mod Runs
pub mod Sets
pub mod Opening
pub mod Ready
pub mod Reached
pub mod Turns
