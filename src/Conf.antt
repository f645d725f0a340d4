-- ===== src/Conf.antt =====
-- The configuration: src/conf.h and src/conf.c. The character buffers of the struct are lists of
-- bytes (Conf/Buffer); a flag is a field. What the build selects by `#if` is the record `Build`.
pub mod Buffer
pub mod Settings
pub mod Lifetime
pub mod Cli
pub mod Bounds
pub mod Safety
pub mod Locations
