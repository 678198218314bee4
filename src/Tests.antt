-- ===== src/Tests.antt =====
-- Runs of the definitions, and the theorems at concrete inputs.
mod Containers
mod Buffers
mod Requests
mod Jobs
mod Histories
mod Entries
mod Startup
mod Scheduling
mod Limits
mod Lines
mod Closing
mod Arithmetic
mod Commands
mod Wrapper
mod Pipes
mod Written
