-- ===== src/TimeBands.antt =====
-- rules.go: the time bands of list files, which cut the windows of the schedule.
pub mod Bands
pub mod Intervals
pub mod Restriction
pub mod Subtraction
pub mod Exactness
pub mod Weeks
pub mod Clocks
pub mod Windows
pub mod Opened
