-- ===== src/Sip/Daemon.antt =====
-- The SIP daemon, src/sip_daemon.c without `sip_log_event`: the sockets and the thread.
pub mod Setup
pub mod Packets
pub mod Loop
pub mod Threads
pub mod Watched
pub mod Descriptors
pub mod Opened
pub mod Overread
pub mod EventMemory
