-- ===== src/Examples.antt =====
-- Concrete runs: the theorems at inputs where what they ask for holds.
mod Data
mod Alerts
mod Signs
mod Monitors
mod Codecs
mod Texts
mod Rules
mod Roles
mod Homes
mod Chains
mod Consensuses
mod Configs
mod Destinations
mod Probes
mod Servers
