-- ===== src/Agent.antt =====
-- The agent process (agent): main, the run loop and the coordinator of the two enforcers.
pub mod Coordinator
pub mod Run
pub mod Heartbeats
pub mod Signals
pub mod Loop
pub mod Shutdown
pub mod Main
pub mod Exit
