-- ===== src/Examples.antt =====
-- The theorems at concrete inputs.
mod Fixtures
mod Jobs
mod Publishing
mod Running
mod Reviews
mod Requests
mod Outside
mod Commands
mod Schema
mod Links
