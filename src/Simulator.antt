-- ===== src/Simulator.antt =====
-- The simulator of simulation/simulator.py: its agents and events, how it trades with the engine, what
-- the frontend's messages do to it, its loop over the events, and how it is set up.
pub mod Traders
pub mod Events
pub mod State
pub mod Queue
pub mod Frame
pub mod Extends
pub mod Effect
pub mod Round
pub mod Ending
pub mod Rounds
pub mod Schedule
pub mod Clock
pub mod Config
pub mod Setup
pub mod Members
pub mod Run
pub mod Finishing
pub mod Started
pub mod Completed
pub mod Exchange
pub mod Frontend
pub mod Loop
pub mod Messages
pub mod Sends
pub mod Samples
pub mod Steering
pub mod Scenarios
pub mod Standalone
mod SortedQueue
mod RunExamples
mod Examples
