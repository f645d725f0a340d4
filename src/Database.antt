-- ===== src/Database.antt =====
-- The event store: src/database.h and src/database.c. SQLite is the environment: whether a call
-- returns the status that the code asks for, and the columns of a row, are its answers.
pub mod Insert
pub mod Exists
pub mod Select
pub mod Rows
pub mod Stored
pub mod Lookup
pub mod Lists
pub mod Quiet
