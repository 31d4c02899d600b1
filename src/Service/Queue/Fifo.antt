-- ===== src/Service/Queue/Fifo.antt =====
-- The queue of crates/zonkey-service/src/lib.rs against the history of its calls.
use zon_key.Prelude.{
  ◌≤◌, ◌≡◌, refl, sym, ap, ◌∙◌, Bool, true, false, List, [], ◌∷◌, ◌++◌, length, length-append,
  append_assoc, arith, saturating_suc-le, u64_max,
}
use zon_key.Types.Observe.{ObservedInputEvent}
use zon_key.Service.Queue.{
  ObserveQueue, EnqueueOutcome, enqueued, dropped_full, DequeueOutcome, event, empty, try_enqueue,
  try_dequeue, pop_front,
}

-- A call of the queue.
pub data Call : Type 0 where
  enqueue : ObservedInputEvent → Call
  dequeue : Call

-- What the calls so far have let in, given out and lost, oldest first, and whether an event was lost
-- since the last that was given out.
pub record History : Type 0 where
  pub accepted : List ObservedInputEvent
  pub given : List ObservedInputEvent
  pub gap : Bool

abbrev pub no_history : History
no_history = record { accepted = []; given = []; gap = false }

enqueue_history : History → ObservedInputEvent → EnqueueOutcome → History
enqueue_history h e enqueued = record h { accepted = h.accepted ++ e ∷ [] }
enqueue_history h e dropped_full = record h { gap = true }

dequeue_history : History → DequeueOutcome → History
dequeue_history h empty = h
dequeue_history h (event d) = record h { given = h.given ++ d.event ∷ []; gap = false }

pub step : ObserveQueue × History → Call → ObserveQueue × History
step (q, h) (enqueue e) = let (q', o) = try_enqueue q e in (q', enqueue_history h e o)
step (q, h) dequeue = let (q', o) = try_dequeue q in (q', dequeue_history h o)

pub run : ObserveQueue × History → List Call → ObserveQueue × History
run s [] = s
run s (c ∷ cs) = run (step s c) cs

-- The queue holds what was accepted and not given out, in order, at most `capacity` of it; the flag
-- tells of a loss since the last event given out.
pub record IsFifo (s : ObserveQueue × History) : Type 0 where
  pub order : s.1.given ++ s.0.events ≡ s.1.accepted
  pub bounded : length s.0.events ≤ s.0.capacity
  pub flag : s.0.discontinuity_pending ≡ s.1.gap
  pub counter : s.0.dropped_events ≤ u64_max

pop_front-IsFifo :
    (q : ObserveQueue) (h : History) (es : List ObservedInputEvent)
    → q.events ≡ es
    → IsFifo (q, h)
    → IsFifo ((pop_front q es).0, dequeue_history h (pop_front q es).1)
unfolding pop_front dequeue_history
pop_front-IsFifo q h [] e v = v
pop_front-IsFifo q h (x ∷ xs) e v = record {
  order = append_assoc h.given (x ∷ []) xs ∙ ap (◌++◌ h.given) (sym e) ∙ v.order;
  bounded = omega (arith, ap length e, v.bounded);
  flag = refl;
  counter = v.counter;
}

enqueue-IsFifo :
    (q : ObserveQueue) (h : History) (e : ObservedInputEvent)
    → IsFifo (q, h)
    → IsFifo ((try_enqueue q e).0, enqueue_history h e (try_enqueue q e).1)
unfolding try_enqueue enqueue_history
enqueue-IsFifo q h e v = ground (
  arith,
  v.order,
  sym (append_assoc h.given q.events (e ∷ [])),
  length-append q.events (e ∷ []),
  saturating_suc-le q.dropped_events,
)

step-IsFifo : (s : ObserveQueue × History) (c : Call) → IsFifo s → IsFifo (step s c)
unfolding step try_dequeue
step-IsFifo (q, h) (enqueue e) v = enqueue-IsFifo q h e v
step-IsFifo (q, h) dequeue v = pop_front-IsFifo q h q.events refl v

-- Whatever the calls, the events come out in the order in which they were accepted, none twice and
-- none made up; the queue stays within its capacity, its flag says whether an event was lost since
-- the last one given out, and its counter of losses does not overflow; all of this if it holds at
-- the start.
pub run-IsFifo : (s : ObserveQueue × History) (cs : List Call) → IsFifo s → IsFifo (run s cs)
unfolding run
run-IsFifo s [] v = v
run-IsFifo s (c ∷ cs) v = run-IsFifo (step s c) cs (step-IsFifo s c v)
