-- ===== src/Handlers.antt =====
-- proxy/internals/handlers.
pub mod Host
pub mod Https
pub mod Ws
