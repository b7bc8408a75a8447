-- ===== src/Parsers.antt =====
-- src/toolbench/parsers.py: one module for each group of its functions, and one for each parser class.
pub mod Usage
pub mod Pending
pub mod Join
pub mod Turns
pub mod Claude
pub mod Weights
pub mod Codex
