-- ===== src/Lib.antt =====
-- The Silicon agent: a monitor for exams on macOS that loads a policy, watches the running
-- processes, the mounted volumes, the protected paths and the clipboard, and logs what the policy
-- forbids.
--
-- The parts and their files:
-- - Prelude: the shared names, Boolean tests and conditionals, lists measured by native numbers and
--   integers. Text: std::string as the list of its bytes. FsPath: the operations of
--   std::filesystem::path that look at the text alone.
-- - Platform: what the code calls and the repository does not hold. The record Os stands for the file
--   functions of std::filesystem and std::fstream and for the environment, JsonLib for the nlohmann
--   JSON package. Both are parameters with no laws.
-- - Config (src/config/config_manager.hpp and .cpp): the class ConfigManager. State has the members,
--   as Settings and the path and the snapshot; Helpers, Paths, Parse, Load and Queries have the
--   functions under their names in snake case, so that Load.load is ConfigManager::load and
--   Queries.is_process_allowed is ConfigManager::isProcessAllowed. Both enforcers ask a Settings; a
--   null pointer to ConfigManager is `none`. Summary is what it logs of a policy. Prefix, Domain,
--   Names, Dedupe, Plain, Valid, Samples, Outcomes, Entries and Enforced
--   prove.
-- - Filesystem (src/filesystem/filesystem_enforcer.hpp and .cpp): the class FilesystemEnforcer. Types
--   has the members that a scan changes and the interface IFileSystem; Policy the resolvers and
--   is_mount_allowed; Notify, Volumes, Events, Polling and Clipboard the steps of a scan, and Scan
--   perform_scan itself; Stream is the event stream and its callback, with the system's handles
--   counted; Local is LocalFileSystem, with the iterators of std::filesystem as a parameter. A scan
--   passes a record Scan along: the enforcer, the counters, and the notifications, log lines and
--   clears of the clipboard that went out. Sinks is SystemClipboard and LoggingNotificationSink, and
--   Lifecycle the constructor, start, stop and scan_loop with the event stream. RateLimit, Printable,
--   Sending, Frame, Counting, Lines, Quiet, Polled, Whole, Queue, Mounts, Settled, Surveyed, Diff,
--   Clearing, Disabled, Notified, Handles, Callback, Backend, Simulation, Lifespan and Snapshots prove.
-- - Process (src/process/process_enforcer.hpp and .cpp): the class ProcessEnforcer. Helpers has its
--   text helpers, Pids enumerates, Inspect reads one process, Scan is perform_scan; the kernel's calls
--   are the record Kernel, a parameter. Ascending, Codes, Offence, Exempt, Reported and, from the
--   policy file on, Denied prove.
-- - Worker: start, stop and scan_loop, which both enforcers have in the same form. Steps cuts them
--   where a thread takes or releases lifecycle_mutex_ and has every interleaving as a sequence of
--   steps; Destructor is the destructor; Safety, Exit and Stopping prove.
-- - Logging (logging/logger.hpp): the class Logger. Levels, Timestamp and Logger have its functions;
--   the file system is the record FileStore, a parameter. Reading reads a file back and Journal is the
--   specification, with each call of log as one step; Threads cuts the calls of two threads at each test,
--   lock and <<. Civil, Fields, RoundTrip, Refinement, Interleaving, Untorn, Exclusion, Schedules,
--   Rounds and Complete prove.
-- - Agent (agent/enforcement_coordinator.cpp, agent/Agent.hpp, agent/main.cpp): Coordinator starts and
--   stops the two enforcers, Signals is the signal handler, Run one turn of the run loop, Loop
--   Agent::run and Main main; Heartbeats, Shutdown and Exit prove.
-- - Tests: concrete policies, disks, file systems, kernels and runs, and the theorems at them.
--
-- How values are modelled. A number is a native one; no counter can come near its width in a run. An
-- int of the policy is an integer. A point in time is a number of microseconds for system_clock and
-- of nanoseconds for steady_clock; the n-th reading of a clock is an argument, so that system_clock
-- may go back. A hash set or map is a list in the order of insertion, which fixes an order that the
-- code leaves open. std::tolower and std::isprint are those of the "C" locale. The process
-- enumeration tries sysctl three times, as the code does. digits has one more step of fuel than the
-- number, which is enough since each step divides it by ten. The policy does not change during a scan,
-- and each method of ConfigManager is one step, as its lock makes it. stop_requested_ is an argument
-- of a scan, read at each process or root.
--
-- find_year has one more step than the days hold years of 365 days. A run of main meets as
-- many turns of the loop as its world has, and each thread takes the steps that the world gives it.
--
-- What is not modelled: the single log lines of ConfigManager's other operations, which are output
-- alone; the path and the level that main sets in the logger; exceptions of the policy's getters, which
-- do not throw; what a scan that throws has changed before it does; the wrappers of Logger::log for one
-- level each; and the handlers of other signals than SIGINT and SIGTERM, which main leaves alone.
pub mod Prelude
pub mod Text
pub mod Platform
pub mod FsPath
pub mod Config
pub mod Filesystem
pub mod Logging
pub mod Process
pub mod Worker
pub mod Agent
pub mod Tests
