-- ===== src/Reactor.antt =====
-- The reactor (reactor/lib, reactor/include): it rolls persistent memory back to older versions.
pub mod Types
pub mod SeqLog
pub mod TxLog
pub mod Order
pub mod Rollback
pub mod Decision
pub mod Platform
pub mod Reexecute
pub mod Reconstruct
pub mod Binary
pub mod Addresses
pub mod Arckpt
pub mod Logs
pub mod Collect
pub mod Options
pub mod React
pub mod Offsets
