-- ===== src/Runtime.antt =====
-- include/taskr/runtime.hpp: the runtime system, one module for each group of its operations.
pub mod State
pub mod Config
pub mod Queued
pub mod Frame
pub mod Tasks
pub mod Callbacks
pub mod Lifecycle
pub mod Services
pub mod Scheduling
pub mod Execution
