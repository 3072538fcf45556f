-- ===== src/Taxi.antt =====
-- TaxiManagement/taxi.c: a dispatcher process and one driver process for each taxi. They talk
-- over two pipes for each driver, one text for each command and one for each reply.
pub mod Driver
pub mod Dispatcher
