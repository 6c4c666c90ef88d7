-- ===== src/Examples.antt =====
-- Concrete inputs on which the theorems of the other files are tried.
mod Data
mod Retries
mod Stores
mod Workloads
mod Tasks
mod Pools
mod Garbage
mod Requests
mod Nodes
mod Machines
mod Drives
mod Loads
