-- ===== src/Workload.antt =====
-- internal/workload/manager.go. `World` is the state that the manager works on, with what it asks
-- of the runtimes, the database, the clock and the volume manager; the other modules are its
-- methods, `Keeps` the rules by which properties of all runs are proved.
pub mod World
pub mod Keeps
pub mod Status
pub mod Recovery
pub mod Reconcile
pub mod Storage
pub mod Lifecycle
pub mod Apply
