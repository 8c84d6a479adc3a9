-- ===== src/Lib.antt =====
-- SyncPlus: the decisions of syncplus-core that say what a run has done and what it may do.
--
-- A run takes an inventory of two peers, works, and reconciles what it finds with what it had
-- frozen. The parts meet as follows. Analysis gives inventories; their frozen form is compared by
-- Mirror equality. A baseline keeps what two peers agreed on, and a later comparison with it yields
-- deletion candidates, which a person decides. Every action leaves a journal entry. Completion
-- reconciliation reads the frozen inventories, the current ones, the journal and the reviewed
-- decisions, and decides whether a source is drained, whether a Mirror is whole, or which paths
-- need review. The plan names the actions that a person confirms, and a revision tells whether an
-- analysis still holds. The run's state machine orders these phases, the scope locks keep two runs
-- off the same paths, and the parser reads rsync's report of a transfer. The tables keep profiles
-- with their schedules; a due occurrence is claimed in one transaction, which numbers its run and
-- stores its snapshot, and a profile becomes rsync's command line. A Conflict Review lists what a
-- person has to decide before a Mirror goes on.
--
-- All of the code is in crates/syncplus-core/src. What models what:
--   Path            `std::path`: components, comparison and order
--   Model           model.rs and analysis.rs: options, requirements, sides, item types
--   Inventory       analysis.rs (InventoryItem, SourceInventory), reconciliation.rs
--                   (InventorySnapshotItem, SourceInventorySnapshot, unix_nanos)
--   MirrorEquality  baseline.rs (MirrorEquality), conflict.rs (MirrorReviewEquality)
--   Journal         evidence.rs: the records of an action's journal entry
--   Finding         reconciliation.rs: reasons, findings, journal_reason, push_unique
--   Baseline        baseline.rs (SyncBaseline); Baseline.Compare its `compare`, Baseline.Merge its
--                   `merge_settled`
--   MirrorDeletion  mirror_deletion.rs
--   Conflict, Resolution   conflict.rs and resolution.rs: keys with their order, resolutions, actions
--   Review          conflict.rs (`from_inventories_with_limit`, `add_compatibility_conflicts`);
--                   Review.Resolve `ConflictReview::resolve` of resolution.rs
--   Reconciliation  reconciliation.rs (`reconcile`); Reconciliation.Mirror its
--                   `reconcile_mirror_with_resolutions_and_deletions`
--   Plan            analysis.rs: the actions that `build_plan` proposes; Plan.Check the summary,
--                   `validate` and `build_plan` itself
--   Revision        analysis.rs (AnalysisRevision)
--   Analysis        analysis.rs: Analysis.Wildcard `wildcard_match`, Analysis.Exclusion
--                   `matches_exclusion`, Analysis.Walk `collect_inventory` and `walk_directory`,
--                   Analysis.Fresh `FreshAnalysis::analyze`, Analysis.Confirm its `confirm` and the
--                   variants, Analysis.Transfer `resolution_transfer_plan`
--   Lifecycle       model.rs (RunState, RunEvent, SyncRun, next_state)
--   ScopeLock       scope_lock.rs
--   Profile         model.rs: peers, SSH peers and their checks, profiles, authorizations;
--                   Profile.Visible the retry delays and what needs the Advanced mode
--   Process         process.rs: flags, arguments, errors, the checks of options;
--                   Process.Specification `from_profile`, Process.Invocation the commands, and
--                   Process.Shell `encode_remote_shell_word` with `to_string_lossy`, and the part of
--                   the shell's grammar that it relies on
--   Schedule        storage.rs (ScheduleDefinition, the occurrences that a claim computes)
--   Storage         storage.rs: the tables, the reading of a profile from its columns; Storage.Checks
--                   the errors and `validate_profile`, Storage.Profiles and
--                   Storage.Schedules what changes them, Storage.Claim `claim_due_schedule` with the
--                   run numbers of evidence.rs, Storage.Columns and Storage.Encoding a profile's
--                   row and back,
--                   Storage.Missed the notices of missed schedules (evidence.rs)
--   Parser          parser.rs: Parser.Line a line, Parser.Escape a path's escapes
--   Examples        concrete inputs
--   Base            shared helpers: equality, order, lists, ordered maps and sets, results
--
-- How the state is modelled. A function that mutates a collection takes it and returns it; a loop
-- is a recursion on the list that it walks. Two loops run on fuel: that of `wildcard_match` on
-- (length of the value + 1) * (length of the pattern + 1), since a `*` is tried at each character at
-- most once, and the digits of a number n on n + 1, since each takes a tenth. A `BTreeMap` is a list
-- sorted by its keys and a `BTreeSet` one without repetition. `?` and `return Err` are the error of
-- a Result, and `expect` its third case. Machine integers are natural numbers; the lock's counter
-- and the plan's sums of bytes wrap at 2^64, the parser's byte count saturates there, a clock reading
-- is limited to a signed 64-bit number of nanoseconds and an octal escape to a byte; the times of
-- schedules and the numbers of rows are checked against `i64`. A text is the list of its bytes.
--
-- The database is a record of tables: profiles and schedules by their number, snapshots, scheduler
-- events and notices in their order, and the next number of each sequence. An operation takes the
-- tables and returns them with its result; a transaction that fails leaves them as they were. A
-- claim reads the profile before its transaction starts, so its draft and its transaction are two
-- steps, and other operations may stand between them. SQLite's constraints (the unique name, the
-- unique exclusions of a profile, the deletion of a profile's schedule with it) are written out; a
-- profile is written as its columns and its exclusions and decoded again at each read; a failure of SQLite itself is not
-- modelled.
--
-- The files of a peer are a tree: a folder lists its entries, an entry has what the filesystem answers
-- about it, and a call that fails is an answer too. The walk takes the tree as it was when it ran, so
-- a file that changes during a walk is not modelled. A folder's results are computed in the order of
-- its listing and then taken by name, the first error ending the walk, as the source takes the sorted
-- entries one after another. A text that is matched is the list of its characters, with U+FFFD for
-- bytes that are no UTF-8.
--
-- Arguments that stand for what is outside: the current directory of the process (`normalize_path`),
-- whether a path is a folder (`is_dir`, for the destination of a one-way run), the clock, the bytes
-- of a file and the check of UTF-8 (Review), and the type of profile snapshots (`SyncRun`). A
-- registry's mutex makes each of its operations one step.
--
-- Not modelled: starting processes, SSH sessions, the statements of SQLite, the user interface, and
-- the texts of errors. The replay of the journal, the polling of scheduler.rs, the prechecks, the
-- removals and the workflows are not modelled either.
pub mod Base
pub mod Path
pub mod Model
pub mod Profile
pub mod Process
pub mod Schedule
pub mod Storage
pub mod Review
pub mod Inventory
pub mod MirrorEquality
pub mod Journal
pub mod Finding
pub mod Baseline
pub mod MirrorDeletion
pub mod Conflict
pub mod Resolution
pub mod Reconciliation
pub mod Lifecycle
pub mod ScopeLock
pub mod Parser
pub mod Examples
pub mod Plan
pub mod Revision
pub mod Analysis
