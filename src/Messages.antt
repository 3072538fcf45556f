-- ===== src/Messages.antt =====
-- The programs of Messages: a server and a client that exchange two messages over queues of the
-- system.
pub mod Posix
pub mod SystemV
