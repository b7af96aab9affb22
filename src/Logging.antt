-- ===== src/Logging.antt =====
-- The class Logger of logging/logger.hpp: Levels, Timestamp and Logger have its functions, Reading
-- reads a log file back, and Civil, RoundTrip and Journal prove.
pub mod Levels
pub mod Timestamp
pub mod Logger
pub mod Reading
pub mod Civil
pub mod Fields
pub mod RoundTrip
pub mod Journal
pub mod Refinement
pub mod Interleaving
pub mod Threads
pub mod Untorn
pub mod Exclusion
pub mod Schedules
pub mod Rounds
pub mod Complete
