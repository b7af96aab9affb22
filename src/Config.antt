-- ===== src/Config.antt =====
-- ConfigManager (src/config): the policy that the enforcers read.
pub mod Helpers
pub mod Paths
pub mod State
pub mod Parse
pub mod Load
pub mod Queries
pub mod Decide
pub mod Prefix
pub mod Domain
pub mod Dedupe
pub mod Names
pub mod Plain
pub mod Valid
pub mod Outcomes
pub mod Entries
pub mod Summary
pub mod Samples
pub mod Enforced
