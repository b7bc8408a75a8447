-- ===== src/Reducer.antt =====
-- src/toolbench/reducer.py: the incremental aggregation of a corpus.
pub mod Stats
pub mod Run
pub mod Absorb
pub mod Tallies
pub mod Calls
pub mod Breakdowns
pub mod Missing
