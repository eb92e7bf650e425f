-- ===== src/Fleet.antt =====
-- contrib/fleet_manager/src/fleet_manager: what is deployed and cancelled so that every cluster runs
-- the wanted number of jobs.
pub mod Jobs
pub mod Listing
pub mod Reading
pub mod Diff
pub mod Newest
pub mod Relay
pub mod Polling
mod Examples
