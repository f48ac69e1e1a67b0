-- ===== src/Analyzer.antt =====
-- The analyzer's own helpers (analyzer/lib), apart from its passes over LLVM's representation.
pub mod Strings
pub mod Numbers
pub mod GuidMap
pub mod Paths
pub mod Hex
pub mod AddrTrace
pub mod Slices
pub mod SliceGraph
