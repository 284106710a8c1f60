-- ===== src/Clients.antt =====
-- The stand-alone clients: their `main` functions, with the setup written out in each of them.
pub mod Exchange
pub mod Demo
pub mod Send
pub mod Listenq
