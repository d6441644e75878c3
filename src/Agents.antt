-- ===== src/Agents.antt =====
-- The trading agents (simulation/agents).
pub mod Base
pub mod Human
pub mod Noise
pub mod Informed
pub mod LatencyArb
pub mod Momentum
pub mod MarketMaker
pub mod Samples
mod Examples
mod TraderExamples
mod MakerExamples
