-- ===== src/Telex/Engine.antt =====
-- `TelexEngine` of crates/zonkey-telex/src/lib.rs: the state machine over the raw and the rendered
-- token. A call returns the engine that it leaves behind and its result.
pub mod Consistent
use zon_key.Prelude.{
  ℕ, Bool, true, false, Option, none, some, List, [], ◌∷◌, not, if◌then◌else◌, Result, ok, err,
}
use zon_key.Text.{Str, is_ascii}
use zon_key.Types.{
  TokenBoundary, space, enter, tab, punctuation, cursor_move, focus_loss, unknown,
  boundary_from_char, EngineAction, noop, apply, commit, reset, EngineEvent, character, backspace,
  boundary, UnsupportedBehavior, non_ascii_input,
}
use zon_key.Token.{TokenState, push_raw, pop_raw, clear, replace_rendered}
use zon_key.Token
use zon_key.Telex.{compose}

pub record TelexEngine : Type 0 where
  pub token : TokenState

abbrev pub new_engine : TelexEngine
new_engine = record { token = Token.new }

-- An error of a call, or the panic of an `expect` that fails.
pub data Failure : Type 0 where
  unsupported : UnsupportedBehavior → Failure
  panicked : Failure

unfoldable pub process_boundary : TelexEngine → TokenBoundary → TelexEngine × EngineAction
unfolding clear
process_boundary e space = (record { token = clear e.token }, commit space)
process_boundary e enter = (record { token = clear e.token }, commit enter)
process_boundary e tab = (record { token = clear e.token }, commit tab)
process_boundary e (punctuation c) = (record { token = clear e.token }, commit (punctuation c))
process_boundary e cursor_move = (record { token = clear e.token }, reset)
process_boundary e focus_loss = (record { token = clear e.token }, reset)
process_boundary e unknown = (record { token = clear e.token }, reset)

module _ (graphemes : Str → List Str) where
  -- The composed text takes the place of the rendered one.
  unfoldable pub rerender : TokenState → Str → TelexEngine × Result Failure EngineAction
  unfolding replace_rendered
  rerender t text =
      let (t', plan) = replace_rendered graphemes t text in (record { token = t' }, ok (apply plan))

  unfoldable pub push_character : TelexEngine → ℕ → TelexEngine × Result Failure EngineAction
  unfolding push_raw rerender
  push_character e c =
      let (t, pushed) = push_raw e.token c in
      elim pushed [
        | err c' ↦ (record { token = t }, err (unsupported (non_ascii_input c')))
        | ok _ ↦ elim (compose t.raw_ascii) [
          | err u ↦ (record { token = t }, err (unsupported u))
          | ok text ↦ rerender t text
        ]
      ]

  unfoldable pub process_character : TelexEngine → ℕ → TelexEngine × Result Failure EngineAction
  process_character e c = elim (boundary_from_char c) [
    | some b ↦ let (e', action) = process_boundary e b in (e', ok action)
    | none ↦
        if not (is_ascii c) then (e, err (unsupported (non_ascii_input c))) else push_character e c
  ]

  unfoldable pub process_backspace : TelexEngine → TelexEngine × Result Failure EngineAction
  unfolding pop_raw rerender
  process_backspace e =
      let (t, popped) = pop_raw e.token in
      elim popped [
        | none ↦ (record { token = t }, ok noop)
        | some _ ↦ elim (compose t.raw_ascii) [
          | err u ↦ (record { token = t }, err panicked)
          | ok text ↦ rerender t text
        ]
      ]

  unfoldable pub process : TelexEngine → EngineEvent → TelexEngine × Result Failure EngineAction
  process e (character c) = process_character e c
  process e backspace = process_backspace e
  process e (boundary b) = let (e', action) = process_boundary e b in (e', ok action)

  -- The engine after a sequence of calls, whatever they returned.
  unfoldable pub process_all : TelexEngine → List EngineEvent → TelexEngine
  process_all e [] = e
  process_all e (ev ∷ evs) = process_all (process e ev).0 evs
