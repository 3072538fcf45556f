-- ===== src/LocalSockets/Internet/Programs.antt =====
-- All programs of Sockets clean up, whatever fails.
