-- ===== src/Examples.antt =====
-- Small tables, logs and runs of the program, on which the theorems are applied.
pub mod Data
pub mod Tables
pub mod Undo
pub mod Search
pub mod SliceGraph
pub mod Orders
pub mod Addresses
pub mod Reconstruct
pub mod Collect
pub mod Texts
pub mod Options
pub mod Paths
pub mod React
pub mod AddrTrace
