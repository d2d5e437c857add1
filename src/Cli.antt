-- ===== src/Cli.antt =====
-- The command line plugin kubectl-fchaos (cmd/kubectl-fchaos): its checks of flags, the runs that
-- its commands make, and the requests that they send.
pub mod Flags
pub mod Target
pub mod Runs
pub mod Commands
pub mod Selects
