-- ===== src/Cmd.antt =====
-- cmd/: the commands. A run of a command is the driver's commands that it sends, its other calls in
-- their order, and its exit status. Goroutines that serve HTTP, and log lines but errors, are not
-- modelled.
pub mod Process
pub mod Alerter
pub mod Ingestor
pub mod Loadgen
