-- ===== src/Transport/Endpoint.antt =====
-- `HostTransportEndpoint` of crates/zonkey-service/src/transport.rs.
use zon_key.Prelude.{
  ℕ, ◌≡◌, ◌≢◌, ◌↔◌, refl, ◌∙◌, subst, Bool, Bool-cases, inl, inr, [], ◌∷◌, true, false, not, ◌||◌,
  Option, none, some, Result, ok, err, if◌then◌else◌, text_eq, text_eq→eq, text_eq_refl, arith,
  ◌>>=◌,
}
use zon_key.Keyed.{lookup}
use zon_key.Text.{Str, codes, is_empty}
use zon_key.Transport.Ledger.{
  LedgerOutcome, ambiguous, RequestDisposition, fresh, LedgerCapacityError, RecordOutcome,
  BoundedRequestLedger, new_ledger, classify_id, record_outcome, record_with_recovery,
  invalidate_all,
}

abbrev pub transport_protocol_id : Str
transport_protocol_id = codes "zonkey.host-transport/1"

pub data TransportError : Type 0 where
  not_established protocol_mismatch invalid_hello session_mismatch : TransportError

pub record HostTransportEndpoint : Type 0 where
  pub protocol_id : Str
  pub session_id : Option Str
  pub ledger : BoundedRequestLedger

unfoldable pub new_endpoint : ℕ → Result LedgerCapacityError HostTransportEndpoint
new_endpoint n = do
  ledger ← new_ledger n
  ok (record { protocol_id = transport_protocol_id; session_id = none; ledger = ledger })

-- `is_some_and(|current| current != session_id)`
unfoldable pub is_restart : Option Str → Str → Bool
is_restart none id = false
is_restart (some current) id = not (text_eq current id)

unfoldable pub accept_hello :
    HostTransportEndpoint → Str → Str → HostTransportEndpoint × Result TransportError Bool
unfolding is_restart
accept_hello e protocol id =
    if is_empty protocol || is_empty id
    then (e, err invalid_hello)
    else if not (text_eq protocol e.protocol_id)
    then (e, err protocol_mismatch)
    else let restart = is_restart e.session_id id in
      (
        record e {
          session_id = some id;
          ledger = if restart then invalidate_all e.ledger else e.ledger;
        },
        ok restart,
      )

unfoldable pub check_session : HostTransportEndpoint → Str → Result TransportError (Unit {0})
check_session e id = elim e.session_id [
  | none ↦ err not_established
  | some current ↦ if text_eq current id then ok tt else err session_mismatch
]

unfoldable pub classify_request : HostTransportEndpoint → Str → Str → RequestDisposition
classify_request e id canonical = classify_id e.ledger id canonical

unfoldable pub record_result :
    HostTransportEndpoint → Str → Str → LedgerOutcome → HostTransportEndpoint × RecordOutcome
record_result e id canonical outcome =
    let (l, o) = record_outcome e.ledger id canonical outcome in (record e { ledger = l }, o)

unfoldable pub record_result_with_recovery :
    HostTransportEndpoint → Str → Str → LedgerOutcome → HostTransportEndpoint × RecordOutcome
record_result_with_recovery e id canonical outcome =
    let (l, o) = record_with_recovery e.ledger id canonical outcome in (record e { ledger = l }, o)

abbrev pub ambiguous_loss_outcome : LedgerOutcome
ambiguous_loss_outcome = ambiguous (codes "connection_lost_before_result")

is_empty-false : (text : Str) → is_empty text ≡ false → text ≢ []
unfolding is_empty
is_empty-false [] h = absurd (cc)
is_empty-false (c ∷ cs) h = λ e. cc

some_current : (a b : Str) → some a ≡ some b → b ≡ a
some_current a b e = cc

-- What a restart is: another session is established.
is_restart_lem :
    (established : Option Str) (id : Str)
    → (is_restart established id ≡ true)
      ↔ ((current : Str) × (established ≡ some current) × (current ≢ id))
unfolding is_restart
is_restart_lem none id = (λ h. absurd (cc), λ (current, e, n). absurd (cc))
is_restart_lem (some current) id = (
  λ h. (current, refl, λ e. ground (arith, h, e, text_eq_refl id)),
  λ (c, e, n). elim (Bool-cases (text_eq current id)) [
    | inl p ↦ absurd (n (some_current current c e ∙ text_eq→eq current id p))
    | inr p ↦ ground (arith, p)
  ],
)

-- After a hello that was accepted, its protocol is that of the endpoint and neither text is empty;
-- requests of its session pass and those of any other do not. It is a restart exactly if another
-- session was established; then every request is fresh, and else the ledger answers as before.
pub accept_hello-ok :
    (e : HostTransportEndpoint) (protocol id other request canonical : Str) (restart : Bool)
    → (accept_hello e protocol id).1 ≡ ok restart
    → text_eq id other ≡ false
    → let e' = (accept_hello e protocol id).0 in
      (protocol ≡ e.protocol_id)
      × (protocol ≢ [])
      × (id ≢ [])
      × (check_session e' id ≡ ok tt)
      × (check_session e' other ≡ err session_mismatch)
      × ((restart ≡ true) ↔ ((current : Str) × (e.session_id ≡ some current) × (current ≢ id)))
      × (classify_request e' request canonical
          ≡ (if restart then fresh else classify_request e request canonical))
unfolding accept_hello check_session classify_request classify_id invalidate_all lookup
accept_hello-ok e protocol id other request canonical restart h k =
    let same : is_restart e.session_id id ≡ restart = ground arith in
    (
      text_eq→eq protocol e.protocol_id (ground arith),
      is_empty-false protocol (ground arith),
      is_empty-false id (ground arith),
      ground (arith, text_eq_refl id),
      ground (arith, text_eq→eq id other),
      subst (λ b. (b ≡ true) ↔ ((current : Str) × (e.session_id ≡ some current) × (current ≢ id)))
          same (is_restart_lem e.session_id id),
      ground (arith, same),
    )

-- A hello that is refused changes nothing, and one of its ids is empty or the protocol is not that
-- of the endpoint.
accept_hello-err :
    (e : HostTransportEndpoint) (protocol id : Str) (error : TransportError)
    → (accept_hello e protocol id).1 ≡ err error
    → ((accept_hello e protocol id).0 ≡ e)
      × ((is_empty protocol || (is_empty id || not (text_eq protocol e.protocol_id))) ≡ true)
unfolding accept_hello
accept_hello-err e protocol id error h = ground arith
