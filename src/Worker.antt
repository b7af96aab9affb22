-- ===== src/Worker.antt =====
-- The worker thread that ProcessEnforcer and FilesystemEnforcer share in shape: start, stop and
-- scan_loop of src/process/process_enforcer.cpp and src/filesystem/filesystem_enforcer.cpp.
pub mod Steps
pub mod Safety
pub mod Exit
pub mod Stopping
pub mod Destructor
