-- ===== src/Service/Run.antt =====
-- `ObserveService` of crates/zonkey-service/src/lib.rs: the synchronous loop around the queue. `run`
-- has the service to itself, so that no stop is requested while it runs.
pub mod Fold
use zon_key.Prelude.{
  ℕ, zero, suc, ◌+◌, ◌%◌, ◌^◌, Bool, true, false, not, ◌||◌, List, [], ◌∷◌, length, if◌then◌else◌,
}
use zon_key.Types.Observe.{
  ObservedInputEvent, ObserverStatus, starting, running, stopping, stopped, failed, ObserverError,
}
use zon_key.Service.Queue.{
  ObserveQueue, EnqueueOutcome, enqueued, dropped_full, DequeuedEvent, DequeueOutcome, event, empty,
  try_enqueue, try_dequeue,
}

pub data ProcessorClassification : Type 0 where
  ignored observed boundary_observed unsupported invalid : ProcessorClassification

-- The trait `EventProcessor` over the processor's state.
pub record EventProcessor (P : Type 0) : Type 0 where
  pub reset_after_discontinuity : P → P
  pub process : P → ObservedInputEvent → P × ProcessorClassification

-- What a source that comes to an end answers to `next_event`, call by call. On a source that never
-- ends, `run` does not return.
pub data EventSource : Type 0 where
  delivers : ObservedInputEvent → EventSource → EventSource
  exhausted : EventSource
  fails : ObserverError → EventSource

pub record AggregateReport : Type 0 where
  pub received : ℕ
  pub accepted : ℕ
  pub dropped : ℕ
  pub processed : ℕ
  pub discontinuities : ℕ
  pub source_failures : ℕ
  pub unsupported_events : ℕ
  pub invalid_events : ℕ

abbrev pub no_report : AggregateReport
no_report = record {
  received = 0;
  accepted = 0;
  dropped = 0;
  processed = 0;
  discontinuities = 0;
  source_failures = 0;
  unsupported_events = 0;
  invalid_events = 0;
}

-- `+= 1` on an `u64`, in a build without overflow checks.
unfoldable pub wrapping_suc : ℕ → ℕ
wrapping_suc n = (n + 1) % 18446744073709551616

pub record ObserveService : Type 0 where
  pub queue : ObserveQueue
  pub status : ObserverStatus
  pub stop_requested : Bool
  pub report : AggregateReport

unfoldable pub new_service : ObserveQueue → ObserveService
new_service queue = record {
  queue = queue;
  status = starting;
  stop_requested = false;
  report = no_report;
}

-- The `matches!` on the terminal states.
unfoldable pub has_ended : ObserverStatus → Bool
has_ended stopped = true
has_ended failed = true
has_ended s = false

unfoldable pub request_stop : ObserveService → ObserveService
request_stop s = if has_ended s.status then s else record s { stop_requested = true }

unfoldable pub count_classification : AggregateReport → ProcessorClassification → AggregateReport
count_classification r unsupported = record r {
  unsupported_events = wrapping_suc r.unsupported_events;
}
count_classification r invalid = record r { invalid_events = wrapping_suc r.invalid_events }
count_classification r c = r

unfoldable pub count_enqueued : AggregateReport → EnqueueOutcome → AggregateReport
count_enqueued r enqueued = record r { accepted = wrapping_suc r.accepted }
count_enqueued r dropped_full = record r { dropped = wrapping_suc r.dropped }

module _ {P : Type 0} (processor : EventProcessor P) where
  -- The reset before an event that follows a loss.
  unfoldable pub after_gap : AggregateReport → P → Bool → AggregateReport × P
  after_gap r p true = (
    record r { discontinuities = wrapping_suc r.discontinuities },
    processor.reset_after_discontinuity p,
  )
  after_gap r p false = (r, p)

  unfoldable pub process_dequeued : ObserveService → P → DequeuedEvent → ObserveService × P
  unfolding after_gap
  process_dequeued s p d =
      let (r, p') = after_gap s.report p d.discontinuity_before_event in
      let (p'', c) = processor.process p' d.event in
      (
        record s {
          report = count_classification (record r { processed = wrapping_suc r.processed }) c;
        },
        p'',
      )

  unfoldable pub process_one : ObserveService → P → (ObserveService × P) × Bool
  process_one s p =
      let (q, o) = try_dequeue s.queue in
      let s' : ObserveService = record s { queue = q } in
      elim o [ empty ↦ ((s', p), false) | event d ↦ (process_dequeued s' p d, true) ]

  -- `while self.process_one(processor) {}`
  unfoldable pub drain : ℕ → ObserveService → P → ObserveService × P
  drain zero s p = (s, p)
  drain (suc fuel) s p =
      let ((s', p'), more) = process_one s p in
      let rest = drain fuel s' p' in if more then rest else (s', p')

  -- One round takes one event off the queue, and the last finds it empty.
  unfoldable pub finish_gracefully : ObserveService → P → ObserveService × P
  finish_gracefully s p =
      let (s', p') = drain (suc (length s.queue.events)) (record s { status = stopping }) p in
      (record s' { status = stopped }, p')

  -- The arm of an event that the source delivers.
  unfoldable pub receive : ObserveService → P → ObservedInputEvent → ObserveService × P
  receive s p e =
      let (q, o) = try_enqueue s.queue e in
      let r : AggregateReport = record (s.report) { received = wrapping_suc s.report.received } in
      (process_one (record s { queue = q; report = count_enqueued r o }) p).0

  unfoldable pub run_loop : ObserveService → P → EventSource → ObserveService × P
  run_loop s p exhausted = finish_gracefully s p
  run_loop s p (fails e) = (
    record s {
      status = failed;
      report = record (s.report) { source_failures = wrapping_suc s.report.source_failures };
    },
    p,
  )
  run_loop s p (delivers e source) = let (s', p') = receive s p e in run_loop s' p' source

  unfoldable pub run : ObserveService → P → EventSource → ObserveService × P
  run s p source =
      if has_ended s.status
      then (s, p)
      else let s' : ObserveService = record s { status = running } in
        if s.stop_requested then finish_gracefully s' p else run_loop s' p source
