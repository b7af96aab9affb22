-- ===== src/Process.antt =====
-- ProcessEnforcer (src/process): the monitor of the running processes.
pub mod Types
pub mod Helpers
pub mod Pids
pub mod Inspect
pub mod Scan
pub mod Ascending
pub mod Codes
pub mod Offence
pub mod Reported
pub mod Denied
pub mod Exempt
