-- ===== src/Tests.antt =====
-- Concrete inputs for the witnesses and the tests: a segmentation in which each character is a
-- cluster, keys as they are typed, and the processor after a word of the product dictionary.
pub mod Lexical
pub mod Engine
pub mod Session
pub mod Wire
pub mod Durable
pub mod Pipe
use zon_key.Prelude.{ℕ, ◌≡◌, refl, ap, Bool, false, List, [], ◌∷◌, ◌++◌}
use zon_key.Text.{Str, codes, concat, is_ascii_alphabetic}
use zon_key.Types.Observe.{
  ObservedKey, letter, space, KeyEventKind, key_down, no_modifiers, physical_or_unmarked,
  ObservedInputEvent,
}
use zon_key.Service.Processor.{DiagnosticDecisionProcessor, new_processor}
use zon_key.Service.Processor.Lifetime.{Stimulus, observes, feel_all}

unfoldable pub each : Str → List Str
each [] = []
each (c ∷ cs) = (c ∷ []) ∷ each cs

pub join_each : (s : Str) → concat (each s) ≡ s
unfolding concat each
join_each [] = refl
join_each (c ∷ cs) = ap (◌∷◌ c) (join_each cs)

abbrev pub key_event : ObservedKey → ObservedInputEvent
key_event k = record {
  key = k;
  kind = key_down;
  modifiers = no_modifiers;
  injection_origin = physical_or_unmarked;
  sequence = record { value = 1 };
}

abbrev pub letters : Str → List ObservedInputEvent
letters [] = []
letters (c ∷ cs) = key_event (letter c) ∷ letters cs

abbrev pub stimuli : List ObservedInputEvent → List Stimulus
stimuli [] = []
stimuli (e ∷ es) = observes e ∷ stimuli es

-- The keys of "redis" and a space.
abbrev pub redis_keys : List ObservedInputEvent
redis_keys = letters (codes "REDIS") ++ key_event space ∷ []

abbrev pub after_redis : DiagnosticDecisionProcessor
after_redis = feel_all each is_ascii_alphabetic (new_processor false) (stimuli redis_keys)
