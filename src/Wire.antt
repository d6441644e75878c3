-- ===== src/Wire.antt =====
-- The client's side of the engine's binary protocol (simulation/market/tcp_client.py).
pub mod Struct
pub mod Messages
pub mod Client
mod Examples
