-- ===== src/Manager.antt =====
-- cmd/main.go: the manager process, from its command line to the start of the manager.
pub mod Flags
pub mod CommandLine
pub mod Servers
pub mod Registration
pub mod Main
pub mod Plan
pub mod Protection
pub mod Owned
pub mod Wakes
pub mod Bootstrap
pub mod Traffic
pub mod Granted
