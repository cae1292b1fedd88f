-- ===== src/Coordinator.antt =====
-- coordinator.cpp: the task table and what the handlers do to it.
pub mod Lines
pub mod Rows
pub mod Finish
pub mod Lifecycle
pub mod Complete
pub mod Claim
pub mod Submit
pub mod System
pub mod Workers
pub mod Status
