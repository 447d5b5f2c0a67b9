-- ===== src/Restore.antt =====
-- Restoring the tasks from a checkpoint. Restore.Registry is src/kernel/restore_registry.c, the table
-- of the tasks' descriptors; Restore.Loader is src/kernel/restore_loader.c, which applies the regions
-- of a checkpoint. Restore.Found has the theorems of the table, Restore.Applied those of the loader.
pub mod Registry
pub mod Found
pub mod Loader
pub mod Treated
pub mod Applied
pub mod Sim
pub mod Batch
mod Tests
