-- ===== src/Gate.antt =====
-- src/toolbench/complexity_gate.py: the comparison of two complexity reports, and what is printed
-- of it. The reports themselves come from Ruff and git, which are outside the model.
pub mod Order
pub mod Asymmetry
pub mod Keys
pub mod Compare
pub mod Branches
pub mod Regressions
pub mod Nearest
