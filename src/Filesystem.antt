-- ===== src/Filesystem.antt =====
-- FilesystemEnforcer (src/filesystem): the monitor of volumes, protected paths and the clipboard.
pub mod Types
pub mod Helpers
pub mod Policy
pub mod Notify
pub mod Volumes
pub mod Events
pub mod Polling
pub mod Clipboard
pub mod Scan
pub mod RateLimit
pub mod Printable
pub mod Sending
pub mod Frame
pub mod Counting
pub mod Lines
pub mod Quiet
pub mod Polled
pub mod Whole
pub mod Settled
pub mod Backend
pub mod Sinks
pub mod Disabled
pub mod Notified
pub mod Lifecycle
pub mod Simulation
pub mod Lifespan
pub mod Queue
pub mod Mounts
pub mod Surveyed
pub mod Diff
pub mod Clearing
pub mod Stream
pub mod Handles
pub mod Callback
pub mod Local
pub mod Snapshots
