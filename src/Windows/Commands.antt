-- ===== src/Windows/Commands.antt =====
-- The commands for the operator of crates/zonkey-win/src/pipe_transport.rs. `{:?}` of an error is the name
-- of its constructor in the source.
use zon_key.Prelude.{
  ℕ, suc, ◌+◌, Bool, true, false, Option, none, some, List, [], ◌∷◌, ◌++◌, Result, ok, err, ◌==◌,
  if◌then◌else◌, text_eq,
}
use zon_key.Prelude.Partial.{◌>>=◌}
use zon_key.Text.{Str, codes}
use zon_key.Text.Search.{split}
use zon_key.Transport.Endpoint.{check_session}
use zon_key.Transport.Request.{decimal}
use zon_key.Recovery.Target.{
  BlockedTarget, RecoveryVerdict, applied_acknowledged, not_applied, conflict_human_review,
}
use zon_key.Recovery.Codec.{
  RecoveryCodecError, truncated, bad_magic, unknown_version, too_many_entries, oversized_file,
  oversized_record, malformed, checksum_mismatch, encode_overflow,
}
use zon_key.Recovery.Registry.{
  RecoveryError, unknown_target, session_mismatch, ack_before_reconcile, registry_full,
  epoch_mismatch,
}
use zon_key.Recovery.Files.{WriteResults}
use zon_key.Recovery.Store.{
  RecoveryStoreError, state_unreadable, unavailable, write_failed, registry_error, Outcome,
}
use zon_key.Recovery.Store.Calls.{store_list, store_block, store_reconcile, store_acknowledge}
use zon_key.Windows.Messages.{parse_u64, parse_reconcile}
use zon_key.Windows.Requests.{Recovery, Server, with_store}

unfoldable pub codec_error_name : RecoveryCodecError → Str
codec_error_name truncated = codes "Truncated"
codec_error_name bad_magic = codes "BadMagic"
codec_error_name unknown_version = codes "UnknownVersion"
codec_error_name too_many_entries = codes "TooManyEntries"
codec_error_name oversized_file = codes "OversizedFile"
codec_error_name oversized_record = codes "OversizedRecord"
codec_error_name malformed = codes "Malformed"
codec_error_name checksum_mismatch = codes "ChecksumMismatch"
codec_error_name encode_overflow = codes "EncodeOverflow"

unfoldable pub registry_error_name : RecoveryError → Str
registry_error_name unknown_target = codes "UnknownTarget"
registry_error_name session_mismatch = codes "SessionMismatch"
registry_error_name ack_before_reconcile = codes "AckBeforeReconcile"
registry_error_name registry_full = codes "RegistryFull"
registry_error_name epoch_mismatch = codes "EpochMismatch"

unfoldable pub verdict_name : RecoveryVerdict → Str
verdict_name applied_acknowledged = codes "AppliedAcknowledged"
verdict_name not_applied = codes "NotApplied"
verdict_name conflict_human_review = codes "ConflictHumanReview"

unfoldable pub map_store_error : RecoveryStoreError → Str
unfolding codec_error_name registry_error_name
map_store_error (state_unreadable code) =
    codes "recovery-error:StateUnreadable:" ++ codec_error_name code
map_store_error unavailable = codes "recovery-error:StateUnavailable"
map_store_error write_failed = codes "recovery-error:StateWriteFailed"
map_store_error (registry_error reason) = codes "recovery-error:" ++ registry_error_name reason

abbrev pub malformed_command : Str
malformed_command = codes "recovery-error:MalformedCommand"

unfoldable pub is_awaiting : Option (RecoveryVerdict × Bool) → Bool
is_awaiting none = true
is_awaiting (some s) = false

-- How many targets have no verdict yet, and how many have one.
unfoldable pub tally : List BlockedTarget → ℕ × ℕ
unfolding is_awaiting
tally [] = (0, 0)
tally (t ∷ ts) =
    let (awaiting, resolved) = tally ts in
    if is_awaiting t.state then (suc awaiting, resolved) else (awaiting, suc resolved)

unfoldable pub list_answer : List BlockedTarget → Str
unfolding tally
list_answer [] = codes "recovery-list|0"
list_answer (t ∷ ts) =
    let (awaiting, resolved) = tally (t ∷ ts) in
    codes "recovery-list|"
    ++ (decimal 20 (awaiting + resolved)
        ++ (codes "|awaiting="
            ++ (decimal 20 awaiting ++ (codes "|resolved=" ++ decimal 20 resolved))))

-- The answer to a call of the store.
unfoldable pub answer_of {ℓ} : {T : Type ℓ} → (T → Str) → Result RecoveryStoreError T → Str
answer_of f (ok value) = f value
answer_of f (err e) = map_store_error e

unfoldable pub answered : {T : Type 0} → (T → Str) → Recovery → Outcome T → Recovery × Str
unfolding answer_of
answered f r (next, result) = (with_store r next, answer_of f result)

unfoldable pub parse_range : Str → Str → Option (ℕ × ℕ)
parse_range start end = do
  range_start ← parse_u64 start
  range_end ← parse_u64 end
  some (range_start, range_end)

unfoldable pub block_command : WriteResults → Recovery → Str → List Str → Recovery × Str
unfolding answered parse_range
block_command w r session (uri ∷ expected ∷ replacement ∷ start ∷ end ∷ others) =
    elim (parse_range start end) [
      | none ↦ (r, malformed_command)
      | some (range_start, range_end) ↦
          answered (λ key. codes "recovery-blocked") r
            (store_block w r.store r.files session uri expected replacement range_start range_end)
    ]
block_command w r session parts = (r, malformed_command)

unfoldable pub reconcile_command :
    WriteResults → Recovery → Str → Option (Str × Str × ℕ × Str) → Recovery × Str
unfolding answered
reconcile_command w r session none = (r, malformed_command)
reconcile_command w r session (some (uri, expected, document_epoch, live)) =
    answered (λ verdict. codes "recovery-verdict:" ++ verdict_name verdict) r
      (store_reconcile w r.store r.files session uri expected document_epoch live)

unfoldable pub acknowledge_command : WriteResults → Recovery → Str → List Str → Recovery × Str
unfolding answered
acknowledge_command w r session (uri ∷ expected ∷ epoch ∷ others) = elim (parse_u64 epoch) [
  | none ↦ (r, malformed_command)
  | some document_epoch ↦
      answered (λ done. codes "recovery-acked") r
        (store_acknowledge w r.store r.files session uri expected document_epoch)
]
acknowledge_command w r session parts = (r, malformed_command)

-- The match on the name of the command.
unfoldable pub run_command : WriteResults → Recovery → Str → List Str → Recovery × Str
unfolding block_command reconcile_command acknowledge_command
run_command w r session [] = (r, malformed_command)
run_command w r session (name ∷ parts) =
    if text_eq name (codes "LIST")
    then (r, answer_of list_answer (store_list r.store))
    else if text_eq name (codes "BLOCK")
    then block_command w r session parts
    else if text_eq name (codes "RECONCILE")
    then reconcile_command w r session (parse_reconcile parts)
    else if text_eq name (codes "ACK")
    then acknowledge_command w r session parts
    else (r, malformed_command)

-- The part of `handle_recovery_command` after the session.
unfoldable pub command_on : WriteResults → Option Recovery → Str → List Str → Option Recovery × Str
unfolding run_command
command_on w none session parts = (none, codes "recovery-error:RecoveryUnavailable")
command_on w (some r) session parts =
    if r.lock_poisoned
    then (some r, codes "recovery-error:RegistryLocked")
    else let (r', text) = run_command w r session parts in (some r', text)

unfoldable pub handle_recovery_parts : WriteResults → Server → List Str → Server × Str
unfolding command_on
handle_recovery_parts w s [] = (s, malformed_command)
handle_recovery_parts w s (session ∷ parts) = elim (check_session s.endpoint session) [
  | err e ↦ (s, codes "recovery-error:SessionMismatch")
  | ok valid ↦
      let (recovery, text) = command_on w s.recovery session parts in
      (record s { recovery = recovery }, text)
]

unfoldable pub handle_recovery_command : WriteResults → Server → Str → Server × Str
unfolding handle_recovery_parts
handle_recovery_command w s command = handle_recovery_parts w s (split (λ c. c == b'|') command)
