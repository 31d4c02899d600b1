-- ===== src/Tests/Engine.antt =====
-- Witnesses of the engine's invariant.
use zon_key.Prelude.{◌≡◌, ◌≢◌, refl, true, List, [], ◌∷◌, err}
use zon_key.Text.{codes, is_ascii, all}
use zon_key.Types.{EngineEvent, character, backspace}
use zon_key.Telex.{compose}
use zon_key.Telex.Engine.{TelexEngine, new_engine, panicked, process, process_all}
use zon_key.Telex.Engine.Consistent.{
  IsConsistent, shown, process_all-IsConsistent, process_action, process-backspace,
}
use zon_key.Tests.{each, join_each}

abbrev typed_aw : TelexEngine
typed_aw = record { token = record { raw_ascii = codes "aw"; rendered = codes "ă" } }

typed_aw-IsConsistent : IsConsistent typed_aw
unfolding compose zon_key.Telex.push_key zon_key.Telex.try_shape_transform zon_key.Telex.try_tone
    zon_key.Telex.requested_tone zon_key.Telex.shape_vowel zon_key.Telex.Vowels.decode_vowel
    zon_key.Telex.transition_for zon_key.Telex.Vowels.encode_vowel
typed_aw-IsConsistent = record { composed = refl }

new_engine-IsConsistent : IsConsistent new_engine
unfolding compose
new_engine-IsConsistent = record { composed = refl }

abbrev keys : List EngineEvent
keys = character b'a' ∷ character b'w' ∷ backspace ∷ character b's' ∷ []

process_all-IsConsistent_example :
    IsConsistent (process_all each new_engine keys)
    × (all is_ascii (process_all each new_engine keys).token.raw_ascii ≡ true)
process_all-IsConsistent_example =
    process_all-IsConsistent each join_each new_engine keys new_engine-IsConsistent

process_action_example :
    ((process each typed_aw (character b's')).1 ≢ err panicked)
    × (shown each (codes "ă") (process each typed_aw (character b's')).1
        ≡ (process each typed_aw (character b's')).0.token.rendered)
process_action_example =
    process_action each join_each typed_aw (character b's') typed_aw-IsConsistent

process-backspace_example :
    let (e', pushed) = process each typed_aw (character b's') in
    let (e'', popped) = process each e' backspace in
    (e'' ≡ typed_aw) × (shown each (shown each (codes "ă") pushed) popped ≡ codes "ă")
unfolding zon_key.Types.boundary_from_char is_ascii
process-backspace_example =
    process-backspace each join_each typed_aw b's' typed_aw-IsConsistent refl refl
