-- ===== src/Fs.antt =====
-- gx/internal/gen/fs: paths below a project's root, and the staged file transactions of the generators.
pub mod Paths
pub mod Root
pub mod Transaction
pub mod Commit
pub mod Outputs
pub mod Examples
