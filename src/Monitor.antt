-- ===== src/Monitor.antt =====
-- internal/monitor: the sign machine, the block handler and the alarm evaluation of a chain.
pub mod Sign
pub mod State
pub mod Alerting
pub mod Blocks
pub mod Watch
pub mod Probe
pub mod Round
pub mod Local
pub mod SetWatch
pub mod Resolve
pub mod Refresh
pub mod Queries
pub mod LiveProbe
pub mod Pick
pub mod LogLines
pub mod LogWorks
pub mod Socket
