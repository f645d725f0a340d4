-- ===== src/Sip.antt =====
-- The SIP side: the event of a received packet (src/sip_message_event.h, src/sip_message_event.c), the
-- parser (src/sip_parser.c), and the logging of an event (src/sip_daemon.c, src/bad_actor.c).
pub mod Event
pub mod Parser
pub mod Log
pub mod Memory
pub mod NoLeak
pub mod Logged
pub mod Aborts
pub mod Daemon
