-- ===== src/Upgrade.antt =====
-- Runtime kernel upgrades of the fleet: core/internal/upgrade (canary.go, upgrade.go) over the
-- tables of core/internal/store (xrayupgrade.go, xrayinstall.go). Rows holds the tables, Install
-- `InstallOn`, Control what an operator presses and the goroutines that it starts, Status what an
-- agent's report does, and Steps the interleavings of these.
pub mod Rows
pub mod Install
pub mod Control
pub mod Status
pub mod Steps
pub mod OneActive
pub mod Panel
pub mod Blocked
pub mod CanaryFirst
mod Examples
