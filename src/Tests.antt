-- ===== src/Tests.antt =====
-- Runs of the code on concrete inputs, part by part.
pub mod Data
pub mod Users
pub mod Clients
pub mod Caches
pub mod Processes
pub mod Starts
pub mod Stops
pub mod Monitoring
pub mod Programs
pub mod Together
pub mod Api
pub mod Sample
pub mod Interleaved
pub mod Races
