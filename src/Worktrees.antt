-- ===== src/Worktrees.antt =====
-- src/toolbench/worktrees.py: the reclaim verdicts on linked git worktrees.
pub mod Porcelain
pub mod Lines
pub mod Printed
pub mod Probes
pub mod Classify
pub mod Safety
pub mod Reclaimable
pub mod Hook
pub mod Notice
