-- ===== src/Lib.antt =====
-- toolbench: the parsing of agent transcripts and what is counted of them, audits of tool calls, git
-- worktree reports, and the complexity gate. Paths below are from the repository's root.
--
-- The program reads the session logs of coding agents and reports how their tools behave. A loader
-- yields lines; `detect_parser` (src/toolbench/adapters.py) finds the schema from the first telling
-- line; the parser (src/toolbench/parsers.py) reads records by `JsonLines`
-- (src/toolbench/transcript.py), joins tool results to pending calls by their id, and accounts the
-- usage of each response once; the `Reducer` (src/toolbench/reducer.py) folds the results into tables
-- by agent, tool and model, and attributes cache tokens to one run by its manifest
-- (src/toolbench/run_manifest.py). Discovery (src/toolbench/sources.py) lists the sessions by pages of
-- AgentsView or by files; src/toolbench/passive.py collects the references, degrades to the files where
-- a listing breaks, parses each reference by the adapter that src/toolbench/registry.py picks, and
-- feeds the reducer or the list of skips; src/toolbench/freeze.py pins the references of a run and
-- src/toolbench/replay.py classifies them again. Beside that pipeline stand src/toolbench/worktrees.py,
-- src/toolbench/complexity_gate.py, and src/toolbench/complex.py, which scores trials of agents by the
-- parser and by the audits of src/toolbench/shell_safety.py.
--
-- Which file models which part:
--   Base, Base/*: Python's equality, dicts, integers and string methods; Outcome: exceptions as values.
--   Json, Json/Dumps: the values of Python's `json` module, and `json.dumps`.
--   Transcript: `result_len` and the record types; Transcript/Lines: `JsonLines`;
--     Transcript/Totals: `_plus`, `_minus` and sums of buckets.
--   Parsers/Usage: `_UsageTally` to `_account_usage` (Partition and Charges hold its lemmas);
--     Parsers/Pending: `_PendingCall`, `_drain_pending`; Parsers/Join: `_join_results` and its helpers;
--     Parsers/Turns: `_track_turn`; Parsers/Claude: `ClaudeParser` and `HermesTraceParser`;
--     Parsers/Codex: `CodexParser`; Parsers/Weights: lemmas on pending calls for both.
--   Adapters: `detect_parser` and `ComposedAdapter.parse`.
--   Paths: `os.path.normpath`, `pathlib.Path` as text; Manifest: `read_run_manifest`, `worktree_for`.
--   Reducer/Stats: the statistics; Reducer/Absorb: `absorb`, `_absorb_calls`, `_absorb_session_cache`;
--     Reducer/Run: `RunStats`, `_absorb_run`, `_claim_detached`, `_book_detached`, `_fold_claimed`;
--     Reducer/Run/Views: the properties of `RunStats`; Reducer/Missing: what a run did not show.
--   Worktrees/Porcelain: `_Stanza` and the parsers of git's output; Worktrees/Probes: the commands;
--     Worktrees/Classify: `_verdict` to `reclaimable`; Worktrees/Hook: `_hook`;
--     Worktrees/Lines, Printed: git's porcelain output, and that it is read back.
--   Gate/Order, Gate/Compare: `compare_complexity`, `nearest_to_threshold`, `format_annotations`, `main`;
--     Gate/Keys, Asymmetry, Nearest, Regressions: the orders, and what the reports give.
--   Shell/Gate, Shell/Audit: `arm_violations`; Shell/Reads: `read_escapes`;
--     Shell/Permitted, Lawful, Contained: what an audit that finds nothing tells.
--   Sources: the records, exceptions and iterators; Sources/Listing: `_list_argv` to
--     `_agentsview_pages`; Sources/Discovery: `_probe_pass` to `discover_agentsview`, and
--     `_probe_agentsview`; Sources/Raw: `iter_session_files`, `_raw_session_refs`, `_raw_census`;
--     Sources/Policy: `iter_sessions`; Sources/Loading: the loaders, `ComposedAdapter`, `pick_adapter`;
--     Sources/Drained, Sources/Yields: how listings end and what they yield.
--   Passive: the filters and `classify_skip`; Passive/Collect: `_probe_truncation`, `_collect_refs`,
--     `_discover_refs`; Passive/Scan: `_scan_refs` with `corpus_fingerprint` (src/toolbench/report.py);
--     Passive/Limit, Unspliced, Partition, Counts: what they give.
--   Freeze: `write_manifest`, Freeze/Reader: `read_manifest`, both at the JSON value; Replay:
--     `_restamp_agentsview_subagents`, and `_replay_census` and `_resolve_corpus` of passive.py.
--   Complex: the arms; Complex/TestGate: `derive_test_gate`; Complex/Locate: `find_located`,
--     `located_correct`; Complex/Score: `load_calls`, `score_trial`; Complex/Profile: `build_profile`,
--     with each rate as its two counts; Complex/Granted, Spent, Split, Counted: what
--     they give.
--   Tests: the properties at concrete inputs.
--
-- How the code corresponds: mutable objects are state that functions take and return, an exception is
-- an `err` of a Result, a loop is recursion on the list it goes over, a dict is an association list in
-- insertion order, and a set is a list without repeats. Python integers are ℤ, or ℕ where the code
-- only counts up. A float is its exact value m / 2 ^ e, an infinity or NaN, with its `repr`.
-- In discovery a call is an Attempt, and an iterator is the Stream of what it does as it is drained, so
-- that code may stop before a failure that lies further on. A command is answered by a function of it.
-- Strings are sequences of characters without lone surrogates.
--
-- Parameters of the model: `json.loads` (a decoder, with none for `JSONDecodeError`; other exceptions
-- of it are not modelled), `os.path.expanduser`, the injected `Runner` of commands (a function of the
-- command line, so what it asks does not change during a run), `float` with the clock,
-- `shlex.split`, the file system with `datetime.fromisoformat`, `repr` of containers, SHA-256, the
-- reading of a hermes database, and the texts of the parsers' exceptions.
--
-- Fuel: the digits of a number are computed on fuel, the number plus one; Json/Dumps proves that they
-- stand for the number. The pages of a listing, whose cursors another program hands out, are read on
-- fuel; Sources/Drained says how much is enough.
--
-- Not modelled: databases, subprocesses and telemetry (the parse of hermes, complex_runner, tracing),
-- the fixtures and the rendering of complex, probe, the command lines and what they print, the layout
-- of reports and of the worktree table, most messages of exceptions, the file of a manifest around its
-- JSON value, and the running of Ruff and git by the gate. A file's lines are read at once. `int` of a
-- text reads ASCII digits, and `math.ceil(n / 1024)` is exact below 2 ^ 53. A quotient of a report is
-- kept as its two terms. The files under tools/ are a copy of another project's.
pub mod Base
pub mod Json
pub mod Transcript
pub mod Outcome
pub mod Parsers
pub mod Adapters
pub mod Paths
pub mod Manifest
pub mod Reducer
pub mod Worktrees
pub mod Sources
pub mod Passive
pub mod Freeze
pub mod Replay
pub mod Complex
pub mod Gate
pub mod Shell
pub mod Tests
