-- ===== src/Shell.antt =====
-- src/toolbench/shell_safety.py: the audits of the tools that an arm used.
pub mod Gate
pub mod Audit
pub mod Prefixes
pub mod Presence
pub mod Permitted
pub mod Lawful
pub mod Reads
pub mod Contained
