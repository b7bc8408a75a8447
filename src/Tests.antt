-- ===== src/Tests.antt =====
-- Concrete runs, and for each property with hypotheses an input at which they hold.
mod Samples
mod Transcripts
mod Aggregates
mod Reports
mod Audits
mod Corpora
mod Manifests
mod Trials
