-- ===== src/Start.antt =====
-- Start and stop of the program: src/sentrypeer.c and src/signal_handler.c.
pub mod Signals
pub mod Main
pub mod Services
pub mod Wanted
pub mod Launched
pub mod Starting
pub mod Stopping
pub mod Waiting
pub mod Lifecycle
pub mod Unstarted
