-- ===== src/Client.antt =====
-- The client program, src/client.cpp: one request and one transfer.
pub mod Link
pub mod Reader
pub mod Get
pub mod Put
pub mod Options
pub mod Connect
pub mod Main
pub mod Total
pub mod Tests
