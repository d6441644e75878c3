-- ===== src/Price.antt =====
-- The price and order-flow processes (simulation/market/price_process.py).
pub mod Arrays
pub mod Diffusion
pub mod Paths
pub mod Regimes
pub mod Switching
pub mod Hawkes
pub mod Arrivals
pub mod Process
pub mod Samples
mod Examples
