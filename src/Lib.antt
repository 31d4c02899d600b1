-- ===== src/Lib.antt =====
-- ZonKey watches the keys of a user who types Vietnamese by Telex, keeps the raw and the rendered form
-- of the token in progress, and, at the end of a token that looks like an English or technical word,
-- decides whether the raw form ought to be restored.
--
-- The parts, from the bottom up, and where each is modelled. `crates/...` are paths of the repository.
-- - Prelude, with Prelude/*: names and lemmas that all parts share. Text, with Text/*: Rust's `char`
--   and `str`; a text is the list of its Unicode scalar values. UTF-8 and UTF-16 are in Text/Utf8 and
--   Text/Utf16.
-- - Types: crates/zonkey-types/src/lib.rs. Types/Float holds `Confidence`, an `f32` as its bit pattern;
--   Types/Observe is crates/zonkey-types/src/observe.rs.
-- - Token: crates/zonkey-token/src/lib.rs. A method on `&mut self` gives the new state beside its
--   result. Token/Edits is about plans of edits.
-- - Telex/Vowels, Telex, Telex/Engine: crates/zonkey-telex/src/lib.rs, which are the table of vowels,
--   `compose`, and `TelexEngine`. The vector that `compose` pushes to is a list with its last element
--   first. Telex/Compose, Telex/Undo and Telex/Engine/Consistent hold the proofs.
-- - Detect/*: crates/zonkey-detect/src, with the word lists of assets/dictionaries. Detect/Safety holds
--   the proofs.
-- - Policy: crates/zonkey-policy/src/lib.rs. Policy/Safety holds the proofs.
-- - Service/*: crates/zonkey-service/src/lib.rs. Service/Queue is `ObserveQueue`, Service/Run is
--   `ObserveService`, Service/Plan and Service/Processor are `DiagnosticDecisionProcessor`,
--   Service/Handoff is the revalidation of a handoff and the internal gate, Service/Boundary is
--   `validate_boundary`. Their proofs are in the modules below them.
-- - Transport/*: crates/zonkey-service/src/transport.rs. Transport/Frame is the codec of frames,
--   Transport/Ledger is `BoundedRequestLedger`, whose map is an association list beside the order of
--   ids, Transport/Endpoint is `HostTransportEndpoint`, and Transport/Request is `build_host_request`
--   with `SharedDecisionState`. Their proofs stand in the same modules and in those below them.
-- - Keyed: `HashMap<String, V>` as an association list, with its laws in Keyed/Laws. Bytes: numbers in
--   little-endian bytes.
-- - Recovery/*: what is kept of requests whose outcome is uncertain. Recovery/Sha256 and Recovery/Codec
--   are crates/zonkey-service/src/recovery_codec.rs, the hash and the format of the state file.
--   Recovery/Target and Recovery/Registry are `BlockedTarget`, `RecoveryText` and `RecoveryRegistry` of
--   crates/zonkey-service/src/transport.rs. Recovery/Files and Recovery/Store are the replacement of the
--   state file and `DurableRecoveryStore` of crates/zonkey-win/src/recovery_store.rs, with its calls in
--   Recovery/Store/Calls. Their proofs stand in the modules below them.
-- - Windows/*: crates/zonkey-win, as far as it does not call Windows. Windows/Keys is the mapping of keys
--   of crates/zonkey-win/src/lib.rs. The others are crates/zonkey-win/src/pipe_transport.rs:
--   Windows/Messages, Windows/Client (what `PipeClient` reads), Windows/Frames (`read_frame_stop_aware` over a list of what the pipe does),
--   Windows/Requests (`serve_descriptor_request`), Windows/Commands (`handle_recovery_command`),
--   Windows/Connection (a round of `serve_connection`).
-- - Tests/*: concrete runs.
--
-- How they interact: the service takes events from a source into its queue and out of it to the
-- processor; the processor feeds the engine, and at a boundary asks the classifier for evidence on the
-- token and the policy for a decision, from which it makes a restore plan of a fresh generation. A
-- handoff is a copy of that plan, and the gate compares it with the plan then in force. What passes the
-- gate becomes a request to the host, which the transport frames, and whose result the ledger of the
-- endpoint keeps for a request that comes again. Before the host's handler runs, the
-- store writes an intent to its file; an outcome that stays uncertain blocks the target in the registry, until the operator has
-- reconciled and acknowledged it.
--
-- What stands for code outside the repository: `graphemes` is the segmentation into extended grapheme
-- clusters of the crate unicode-segmentation, of which only `join_graphemes` is asked, that the
-- clusters of a text, put together, are the text; `is_alphabetic` is `char::is_alphabetic`. What Windows
-- answers to each call of the store is part of the call (`WriteResults`, `OpenResults`), and the two files
-- change as its calls are documented: CREATE_ALWAYS empties, WriteFile appends what it transferred,
-- MoveFileExW replaces where it succeeds. A store whose opening panics in an `expect` is none.
--
-- Integers are natural numbers; where the source counts in a `u64`, the wrap-around or the saturation
-- is written out. The source of events is what it answers, call by call, until it ends. `drain` runs on
-- fuel, one more than the events that wait, and each round takes one off; the proof that this is enough
-- is part of the theorems on `run`. A generation is printed with at most twenty digits, which is enough
-- for a `u64`. The padding of SHA-256 runs on 64 rounds, which is enough by the theorem on it; the loop
-- over its blocks has as many rounds as the message has bytes. `write_all` runs on as many rounds as there
-- are bytes, which is enough since each call that goes on transfers one. A hash is the list of its bytes.
-- Where the codec reads at an offset, the bytes from there on are passed along. A `get_mut` of an entry is
-- the entry that is inserted in its place. A `usize` has 64 bits. The methods
-- `record` and `record_with_recovery` are `record_outcome` and `record_with_recovery`
-- on the ledger, `record_result` and `record_result_with_recovery` on the endpoint; `classify` of the
-- ledger is `classify_id`.
--
-- Not modelled: printing and Debug output, but for the names of errors in the answers to commands; what
-- is left of crates/zonkey-win, which calls the Windows API: the creation of pipes, threads and handles,
-- security, native input, accessibility and the capability of the editor; crates/zonkey-cli; the editor
-- extension under hosts/; and the modules that are compiled for tests only.
pub mod Prelude
pub mod Text
pub mod Bytes
pub mod Keyed
pub mod Types
pub mod Token
pub mod Telex
pub mod Detect
pub mod Policy
pub mod Service
pub mod Transport
pub mod Windows
pub mod Recovery
pub mod Tests
