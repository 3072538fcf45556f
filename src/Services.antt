-- ===== src/Services.antt =====
-- SocketsSS: four time servers and their clients.
pub mod Pool
pub mod Lending
pub mod Clock
pub mod Trio
pub mod Visitor
