-- ===== src/Tests.antt =====
-- The theorems at concrete inputs that meet their hypotheses, and runs of the operations.
pub mod Samples
pub mod Graph
pub mod Scheduling
pub mod Lifecycle
pub mod Services
pub mod Locks
pub mod Waiting
pub mod Handlers
pub mod Python
pub mod Execution
pub mod Timed
pub mod Cholesky
pub mod Blocks
pub mod Jacobi
pub mod Grids
