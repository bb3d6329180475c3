-- ===== src/Examples.antt =====
-- Programs of examples/ that have logic of their own, over the model of the runtime.
pub mod Cholesky
pub mod Blocks
pub mod Jacobi
