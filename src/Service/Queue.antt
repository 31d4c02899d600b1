-- ===== src/Service/Queue.antt =====
-- `ObserveQueue` of crates/zonkey-service/src/lib.rs: a bounded queue of events.
pub mod Fifo
use zon_key.Prelude.{
  ℕ, ◌+◌, Bool, true, false, List, [], ◌∷◌, ◌++◌, length, ◌==◌, if◌then◌else◌, Result, ok, err,
  saturating_suc,
}
use zon_key.Types.Observe.{ObservedInputEvent}

abbrev pub default_observe_queue_capacity : ℕ
default_observe_queue_capacity = 256

pub data QueueCapacityError : Type 0 where
  queue_capacity_error : QueueCapacityError

pub data EnqueueOutcome : Type 0 where
  enqueued dropped_full : EnqueueOutcome

pub record DequeuedEvent : Type 0 where
  pub event : ObservedInputEvent
  pub discontinuity_before_event : Bool

pub data DequeueOutcome : Type 0 where
  event : DequeuedEvent → DequeueOutcome
  empty : DequeueOutcome

pub record QueueStats : Type 0 where
  pub capacity : ℕ
  pub queued : ℕ
  pub dropped_events : ℕ
  pub discontinuity_pending : Bool

-- The oldest event is the head of the list.
pub record ObserveQueue : Type 0 where
  pub capacity : ℕ
  pub events : List ObservedInputEvent
  pub dropped_events : ℕ
  pub discontinuity_pending : Bool

unfoldable pub new_queue : ℕ → Result QueueCapacityError ObserveQueue
new_queue capacity =
    if capacity == 0
    then err queue_capacity_error
    else ok (record {
      capacity = capacity;
      events = [];
      dropped_events = 0;
      discontinuity_pending = false;
    })

unfoldable pub try_enqueue : ObserveQueue → ObservedInputEvent → ObserveQueue × EnqueueOutcome
try_enqueue q e =
    if length q.events == q.capacity
    then (
      record q { dropped_events = saturating_suc q.dropped_events; discontinuity_pending = true },
      dropped_full,
    )
    else (record q { events = q.events ++ e ∷ [] }, enqueued)

-- `pop_front`, and the flag handed over with the event.
unfoldable pub pop_front : ObserveQueue → List ObservedInputEvent → ObserveQueue × DequeueOutcome
pop_front q [] = (q, empty)
pop_front q (e ∷ es) = (
  record q { events = es; discontinuity_pending = false },
  event (record { event = e; discontinuity_before_event = q.discontinuity_pending }),
)

unfoldable pub try_dequeue : ObserveQueue → ObserveQueue × DequeueOutcome
unfolding pop_front
try_dequeue q = pop_front q q.events

unfoldable pub stats : ObserveQueue → QueueStats
stats q = record {
  capacity = q.capacity;
  queued = length q.events;
  dropped_events = q.dropped_events;
  discontinuity_pending = q.discontinuity_pending;
}
