-- ===== src/Lib.antt =====
-- The memory store of hive-memory: which records an agent may see, which ones replace which, what may
-- be stored at all, and how a write is named and classified.
--
-- Texts are lists of Unicode scalar values (Text); orders and searches on them are those of Rust's
-- `str`. Sets (`BTreeSet`) are sorted lists, maps are association lists. Base holds the
-- operations on native numbers, lists and integers that the components share.
--
--   Record         the row type of src/index.rs with the enumerations of src/note.rs
--   Visibility     src/visibility.rs: `audience_allows`
--   Validity       src/validity.rs: `allows_current`, `allows_search`
--   Supersession   src/supersession.rs. Words has the tokens and markers, Graph the iterative search
--                  of `strongly_connected_components`, Links the explicit phase, and Heuristic
--                  the phase on words and `suppressed_ids`
--   Secret         src/secret.rs: `detect` and its four detectors
--   Capture        src/capture.rs: candidate facts from a backend's reply, filtered by Secret
--   Reconcile      src/reconcile.rs: the decision of a backend about a new fact
--   Classify       src/signals.rs (Signals), src/write_classify.rs (Write), src/inject.rs (Inject),
--                  and what the write side and the read side agree on (Agreement)
--   Ident, Hash    src/id.rs and src/hash.rs
--   AtomicWrite    src/write.rs over a model of the file system (Files) in which any call may fail and
--                  other processes may create files; Calls has the writes that callers make,
--                  Arrived the files that other processes create meanwhile, Replaced and Calm the
--                  writes that replace a file
--   Outbox         src/outbox.rs, on AtomicWrite: `publish_payload` and `validate_relative_path`, and
--                  in Flush the flush of queued items, with the archive and the removal in Complete
--   Context        src/context.rs. Policy has the sources, the order and the families of projects,
--                  Escape and Render the texts, Request and Assembly the four `assemble` functions,
--                  Subset the later selection under a size limit
--   Hook           src/hook.rs: the state of a session. Update has the operations on it, Cycle
--                  `with_state_lock` on AtomicWrite, Receipts the file of write receipts
--   Json           what the code uses of the JSON reader
--
-- Context filters the rows of the index by Visibility and Validity, hides what Supersession hides, and
-- renders the rest within a budget; Hook remembers what of it a session has received. A write that
-- cannot reach its store waits in the Outbox.
--
-- The index gives the rows; Visibility and Validity filter them, Supersession hides replaced ones,
-- and the class of Classify decides which of the rest is put before an agent. A write goes the other
-- way: Capture keeps what Secret lets through, Reconcile chooses what becomes of it, Classify gives
-- it a kind and a scope, and Ident its name.
--
-- Parameters stand for code outside the repository: the RFC 3339 parser (`parse_time`) and the
-- clock, Unicode lower case (which on ASCII texts is ASCII lower case), SHA-256, and the JSON reader.
-- The outcome of a backend's call is an argument, and so are the ids, the process id and the faults
-- of a file write.
--
-- The inner loop of the graph search runs on fuel, one more than the number of the records and of
-- their links: each round follows a link or closes a record. The attempts of a unique write are counted
-- as in the source. The decimal digits of a number use the number itself as fuel.
--
-- The wait for a session's lock is a list of the attempts before its deadline. What the file system
-- answers outside AtomicWrite (readings, locks, directories, the removal of a queued item) is an
-- argument of the operation that asks.
--
-- Not modelled: the SQLite and Tantivy indexes and the queries on them, the command line, processes,
-- prompts, configuration, and the diagnosis of the host. Of the outbox, queueing and binding are left
-- out; of the hooks, the refresh lock and the removal of old runs.
mod Base
pub mod Text
pub mod Record
pub mod Visibility
pub mod Validity
pub mod Ident
pub mod Secret
pub mod Hash
pub mod Json
pub mod Reconcile
pub mod Classify
pub mod Capture
pub mod Supersession
pub mod AtomicWrite
pub mod Outbox
pub mod Context
pub mod Hook
mod Examples
