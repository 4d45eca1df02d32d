-- ===== src/Tests.antt =====
-- The theorems of the development at concrete inputs.
mod Setup
mod PoolTests
mod WaitTests
mod TrackTests
mod StreamTests
mod PostedTests
mod WindowTests
mod InitTests
mod CommTests
