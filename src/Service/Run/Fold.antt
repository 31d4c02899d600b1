-- ===== src/Service/Run/Fold.antt =====
-- The loop of crates/zonkey-service/src/lib.rs against a plain fold of the processor.
use zon_key.Prelude.{
  ℕ, zero, suc, ◌+◌, ◌%◌, ◌<◌, ◌≡◌, refl, Bool, true, false, List, [], ◌∷◌, length, arith,
}
use zon_key.Types.Observe.{ObservedInputEvent, ObserverStatus, running, stopping, stopped, failed}
use zon_key.Service.Queue.{enqueued, try_enqueue, try_dequeue}
use zon_key.Service.Run.{
  EventProcessor, EventSource, delivers, exhausted, fails, ObserveService, wrapping_suc, has_ended,
  count_classification, count_enqueued, process_dequeued, process_one, drain, finish_gracefully,
  receive, run_loop, run,
}

-- The events that a source delivers, and the state in which the service ends with it.
pub delivered : EventSource → List ObservedInputEvent
delivered exhausted = []
delivered (fails e) = []
delivered (delivers e source) = e ∷ delivered source

pub final_status : EventSource → ObserverStatus
final_status exhausted = stopped
final_status (fails e) = failed
final_status (delivers e source) = final_status source

pub final_failures : EventSource → ℕ → ℕ
final_failures exhausted n = n
final_failures (fails e) n = wrapping_suc n
final_failures (delivers e source) n = final_failures source n

abbrev u64_mod : ℕ
u64_mod = 18446744073709551616

count_step : (n k : ℕ) → (wrapping_suc n + k) % u64_mod ≡ (n + suc k) % u64_mod
unfolding wrapping_suc
count_step n k = omega arith

module _ {P : Type 0} (processor : EventProcessor P) where
  -- The processor on each event in turn.
  pub process_all : P → List ObservedInputEvent → P
  process_all p [] = p
  process_all p (e ∷ es) = process_all (processor.process p e).0 es

  after_reset : P → Bool → P
  after_reset p true = processor.reset_after_discontinuity p
  after_reset p false = p

  -- The same, with a reset in front of the first event if an event was lost before it.
  pub process_after_gap : P → Bool → List ObservedInputEvent → P
  process_after_gap p gap [] = p
  process_after_gap p gap (e ∷ es) = process_all (after_reset p gap) (e ∷ es)

  process_one_lem :
      (s : ObserveService) (p : P) (e : ObservedInputEvent) (es : List ObservedInputEvent)
      → s.queue.events ≡ e ∷ es
      → let ((s', p'), more) = process_one processor s p in
        (s'.queue.events ≡ es)
        × (s'.queue.discontinuity_pending ≡ false)
        × (p' ≡ process_after_gap p s.queue.discontinuity_pending (e ∷ []))
        × (s'.status ≡ s.status)
        × (more ≡ true)
        × (s'.queue.capacity ≡ s.queue.capacity)
        × (s'.report.processed ≡ wrapping_suc s.report.processed)
        × (s'.report.received ≡ s.report.received)
        × (s'.report.accepted ≡ s.report.accepted)
        × (s'.report.dropped ≡ s.report.dropped)
        × (s'.report.source_failures ≡ s.report.source_failures)
  unfolding process_one process_dequeued count_classification try_dequeue process_after_gap
      process_all after_reset
  process_one_lem s p e es h = ground arith

  process_one_empty :
      (s : ObserveService) (p : P)
      → s.queue.events ≡ []
      → process_one processor s p ≡ ((s, p), false)
  unfolding process_one try_dequeue
  process_one_empty s p h = ground arith

  process_after_gap_step :
      (p : P) (gap : Bool) (e : ObservedInputEvent) (es : List ObservedInputEvent)
      → process_after_gap (process_after_gap p gap (e ∷ [])) false es
        ≡ process_after_gap p gap (e ∷ es)
  unfolding process_after_gap process_all after_reset
  process_after_gap_step p gap e [] = refl
  process_after_gap_step p gap e (x ∷ xs) = refl

  drain_lem :
      (fuel : ℕ) (s : ObserveService) (p : P) (es : List ObservedInputEvent)
      → s.queue.events ≡ es
      → length es < fuel
      → let (s', p') = drain processor fuel s p in
        (s'.queue.events ≡ [])
        × (p' ≡ process_after_gap p s.queue.discontinuity_pending es)
        × (s'.report.processed % u64_mod ≡ (s.report.processed + length es) % u64_mod)
  unfolding drain process_after_gap
  drain_lem zero s p es h k = absurd (omega arith)
  drain_lem (suc fuel) s p [] h k = ground (arith, process_one_empty s p)
  drain_lem (suc fuel) s p (e ∷ es) h k =
      let s' : ObserveService = (process_one processor s p).0.0 in
      let p' : P = (process_one processor s p).0.1 in
      ground (
        arith,
        process_one_lem s p e es h,
        drain_lem fuel s' p' es (process_one_lem s p e es h).0 (omega arith),
        process_after_gap_step p s.queue.discontinuity_pending e es,
        count_step s.report.processed (length es),
      )

  -- Nothing waits, nothing was lost, and there is room.
  pub record IsIdle (s : ObserveService) : Type 0 where
    pub nothing_waits : s.queue.events ≡ []
    pub nothing_lost : s.queue.discontinuity_pending ≡ false
    pub room : 0 < s.queue.capacity

  enqueue_idle :
      (s : ObserveService) (e : ObservedInputEvent)
      → IsIdle s
      → try_enqueue s.queue e ≡ (record (s.queue) { events = e ∷ [] }, enqueued)
  unfolding try_enqueue
  enqueue_idle s e v = ground arith

  abbrev one_waits : ObserveService → ObservedInputEvent → ObserveService
  one_waits s e = record s {
    queue = record (s.queue) { events = e ∷ [] };
    report = record (s.report) {
      received = wrapping_suc s.report.received;
      accepted = wrapping_suc s.report.accepted;
    };
  }

  receive_idle :
      (s : ObserveService) (p : P) (e : ObservedInputEvent)
      → IsIdle s
      → receive processor s p e ≡ (process_one processor (one_waits s e) p).0
  unfolding receive count_enqueued
  receive_idle s p e v = rw (enqueue_idle s e v, receive)

  receive_lem :
      (s : ObserveService) (p : P) (e : ObservedInputEvent)
      → IsIdle s
      → let (s', p') = receive processor s p e in
        IsIdle s'
        × (p' ≡ (processor.process p e).0)
        × (s'.report.received ≡ wrapping_suc s.report.received)
        × (s'.report.accepted ≡ wrapping_suc s.report.accepted)
        × (s'.report.processed ≡ wrapping_suc s.report.processed)
        × (s'.report.dropped ≡ s.report.dropped)
        × (s'.report.source_failures ≡ s.report.source_failures)
  unfolding process_after_gap process_all after_reset
  receive_lem s p e v =
      rw (receive_idle s p e v) (ground (arith, process_one_lem (one_waits s e) p e [] refl))

  finish_idle :
      (s : ObserveService) (p : P)
      → IsIdle s
      → finish_gracefully processor s p ≡ (record s { status = stopped }, p)
  unfolding finish_gracefully drain
  finish_idle s p v = ground (arith, process_one_empty (record s { status = stopping }) p)

  -- What a run leaves behind that delivered `source` to an idle service.
  pub record HasRun (s : ObserveService) (p : P) (source : EventSource) (r : ObserveService × P)
      : Type 0 where
    pub folded : r.1 ≡ process_all p (delivered source)
    pub ended : r.0.status ≡ final_status source
    pub emptied : r.0.queue.events ≡ []
    pub received :
        r.0.report.received % u64_mod ≡ (s.report.received + length (delivered source)) % u64_mod
    pub accepted :
        r.0.report.accepted % u64_mod ≡ (s.report.accepted + length (delivered source)) % u64_mod
    pub processed :
        r.0.report.processed % u64_mod ≡ (s.report.processed + length (delivered source)) % u64_mod
    pub dropped : r.0.report.dropped ≡ s.report.dropped
    pub failures : r.0.report.source_failures ≡ final_failures source s.report.source_failures

  run_loop-HasRun :
      (s : ObserveService) (p : P) (source : EventSource)
      → IsIdle s
      → HasRun s p source (run_loop processor s p source)
  unfolding run_loop delivered final_status final_failures process_all
  run_loop-HasRun s p exhausted v = rw (finish_idle s p v) (ground arith)
  run_loop-HasRun s p (fails e) v = ground arith
  run_loop-HasRun s p (delivers e source) v =
      let s' : ObserveService = (receive processor s p e).0 in
      let p' : P = (receive processor s p e).1 in
      let one = receive_lem s p e v in
      let rest = run_loop-HasRun s' p' source one.0 in
      let n : ℕ = length (delivered source) in
      ground (
        arith,
        one,
        rest,
        count_step s.report.received n,
        count_step s.report.accepted n,
        count_step s.report.processed n,
      )

  -- A run of an idle service that was not stopped folds the processor over exactly the events that
  -- the source delivers, in order, with no reset in between; it loses none, counts each as
  -- received, accepted and processed (modulo 2^64), empties the queue, and ends as the source does:
  -- stopped where that is exhausted, failed, with one more failure counted, where it fails.
  pub run-HasRun :
      (s : ObserveService) (p : P) (source : EventSource)
      → IsIdle s
      → has_ended s.status ≡ false
      → s.stop_requested ≡ false
      → HasRun s p source (run processor s p source)
  unfolding run
  run-HasRun s p source v h k =
      let s' : ObserveService = record s { status = running } in
      let rest = run_loop-HasRun s' p source (record {
        nothing_waits = v.nothing_waits;
        nothing_lost = v.nothing_lost;
        room = v.room;
      }) in
      ground (arith, rest)

  -- After a stop was requested of a service that has not ended, a run asks the source for nothing:
  -- it processes what waits in the queue, in order, after a reset if events were lost, empties the
  -- queue and stops.
  pub run_stop_requested :
      (s : ObserveService) (p : P) (source : EventSource)
      → has_ended s.status ≡ false
      → s.stop_requested ≡ true
      → let (s', p') = run processor s p source in
        (p' ≡ process_after_gap p s.queue.discontinuity_pending s.queue.events)
        × (s'.queue.events ≡ [])
        × (s'.status ≡ stopped)
        × (s'.report.processed % u64_mod ≡ (s.report.processed + length s.queue.events) % u64_mod)
  unfolding run finish_gracefully
  run_stop_requested s p source h k = ground (
    arith,
    drain_lem (suc (length s.queue.events)) (record s { status = stopping }) p s.queue.events refl
        (omega arith),
  )
