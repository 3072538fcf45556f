-- ===== src/Echo.antt =====
-- SocketsEcho: a UDP echo server that numbers the messages of each client (server.c), and its
-- client (client1.c, of which client2.c is a copy).
pub mod Server
pub mod Client
