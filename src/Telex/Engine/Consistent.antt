-- ===== src/Telex/Engine/Consistent.antt =====
-- The invariant of the engine: the rendered token is the composition of the raw one.
use zon_key.Prelude.{
  ℕ, ◌≡◌, refl, ap, ◌∙◌, Bool, true, false, none, some, List, [], ◌∷◌, ◌++◌, inl, inr, arith,
  Result, ok, err, Option-cases, ◌≢◌, Bool-cases,
}
use zon_key.Text.{Str, is_ascii, all, all-append, concat}
use zon_key.Types.{
  TokenBoundary, space, non_ascii_input, EngineAction, noop, apply, commit, reset, EngineEvent,
  character, backspace, boundary, boundary_from_char,
}
use zon_key.Token.{pop_last, apply_edit_plan, edit_plan_between}
use zon_key.Token.Edits.{pop_last-snoc, apply_edit_plan-edit_plan_between}
use zon_key.Telex.{compose}
use zon_key.Telex.Compose.{compose-ok_iff}
use zon_key.Telex.Engine.{
  TelexEngine, Failure, unsupported, panicked, process_boundary, push_character, process_character,
  process_backspace, process, process_all,
}

pub record IsConsistent (e : TelexEngine) : Type 0 where
  pub composed : compose e.token.raw_ascii ≡ ok e.token.rendered

-- Taking the last element off keeps a predicate of all elements.
all-pop_last : (p : ℕ → Bool) (xs : Str) → all p xs ≡ true → all p (pop_last xs).0 ≡ true
unfolding all pop_last
all-pop_last p [] h = refl
all-pop_last p (x ∷ []) h = refl
all-pop_last p (x ∷ y ∷ ys) h = ground (arith, all-pop_last p (y ∷ ys))

pop_last-none : (xs : Str) → (pop_last xs).1 ≡ none → xs ≡ []
unfolding pop_last
pop_last-none [] h = refl
pop_last-none (x ∷ []) h = cc
pop_last-none (x ∷ y ∷ ys) h = ground (arith, pop_last-none (y ∷ ys))

compose-pop_last :
    (raw text : Str)
    → compose raw ≡ ok text
    → (shorter : Str) × (compose (pop_last raw).0 ≡ ok shorter)
compose-pop_last raw text h =
    (compose-ok_iff (pop_last raw).0).0
      (all-pop_last is_ascii raw ((compose-ok_iff raw).1 (text, h)))

compose-snoc :
    (raw text : Str) (c : ℕ)
    → compose raw ≡ ok text
    → is_ascii c ≡ true
    → (longer : Str) × (compose (raw ++ c ∷ []) ≡ ok longer)
unfolding all
compose-snoc raw text c h k =
    (compose-ok_iff (raw ++ c ∷ [])).0
      (ground (arith, all-append is_ascii raw (c ∷ []), (compose-ok_iff raw).1 (text, h)))

process_boundary-IsConsistent :
    (e : TelexEngine) (b : TokenBoundary) → IsConsistent (process_boundary e b).0
unfolding process_boundary compose
process_boundary-IsConsistent e space = record { composed = refl }
process_boundary-IsConsistent e _ = record { composed = refl }

-- The text of a token after an action on it. Ending the token leaves none of it.
abbrev pub shown : (Str → List Str) → Str → Result Failure EngineAction → Str
shown graphemes text (err f) = text
shown graphemes text (ok noop) = text
shown graphemes text (ok (apply plan)) = apply_edit_plan graphemes text plan
shown graphemes text (ok (commit b)) = []
shown graphemes text (ok reset) = []

module _ (graphemes : Str → List Str) where
  -- The engine on a token, and the edit from one rendering to another.
  abbrev rendering : Str → Str → Str → TelexEngine × Result Failure EngineAction
  rendering raw old text = (
    record { token = record { raw_ascii = raw; rendered = text } },
    ok (apply (edit_plan_between graphemes old text)),
  )

  push_character_lem :
      (e : TelexEngine) (c : ℕ) (longer : Str)
      → is_ascii c ≡ true
      → compose (e.token.raw_ascii ++ c ∷ []) ≡ ok longer
      → push_character graphemes e c
        ≡ rendering (e.token.raw_ascii ++ c ∷ []) e.token.rendered longer
  unfolding push_character
  push_character_lem e c longer k l = ground arith

  process_backspace_lem :
      (e : TelexEngine) (shorter : Str) (c : ℕ)
      → (pop_last e.token.raw_ascii).1 ≡ some c
      → compose (pop_last e.token.raw_ascii).0 ≡ ok shorter
      → process_backspace graphemes e
        ≡ rendering (pop_last e.token.raw_ascii).0 e.token.rendered shorter
  unfolding process_backspace
  process_backspace_lem e shorter c k s = ground arith

  process_backspace_nothing :
      (e : TelexEngine)
      → (pop_last e.token.raw_ascii).1 ≡ none
      → process_backspace graphemes e ≡ (e, ok noop)
  unfolding process_backspace
  process_backspace_nothing e h = ground (arith, pop_last-none e.token.raw_ascii h)

  process_character_accepted :
      (e : TelexEngine) (c : ℕ)
      → boundary_from_char c ≡ none
      → is_ascii c ≡ true
      → process_character graphemes e c ≡ push_character graphemes e c
  unfolding process_character
  process_character_accepted e c n k = ground arith

  process_character_refused :
      (e : TelexEngine) (c : ℕ)
      → boundary_from_char c ≡ none
      → is_ascii c ≡ false
      → process_character graphemes e c ≡ (e, err (unsupported (non_ascii_input c)))
  unfolding process_character
  process_character_refused e c n k = ground arith

  -- The result of a call on an engine that renders `old`.
  record IsSound (old : Str) (r : TelexEngine × Result Failure EngineAction) : Type 0 where
    consistent : IsConsistent r.0
    visible : shown graphemes old r.1 ≡ r.0.token.rendered
    no_panic : r.1 ≢ err panicked

  boundary-IsSound :
      (old : Str) (e : TelexEngine) (b : TokenBoundary)
      → IsSound old ((process_boundary e b).0, ok (process_boundary e b).1)
  unfolding process_boundary compose
  boundary-IsSound old e space = record {
    consistent = record { composed = refl };
    visible = refl;
    no_panic = λ h. cc;
  }
  boundary-IsSound old e _ = record {
    consistent = record { composed = refl };
    visible = refl;
    no_panic = λ h. cc;
  }

module _ (graphemes : Str → List Str) (join_graphemes : (s : Str) → concat (graphemes s) ≡ s) where
  rendering-IsSound :
      (raw old text : Str)
      → compose raw ≡ ok text
      → IsSound graphemes old (rendering graphemes raw old text)
  rendering-IsSound raw old text h = record {
    consistent = record { composed = h };
    visible = apply_edit_plan-edit_plan_between graphemes join_graphemes old text;
    no_panic = λ k. cc;
  }

  character-IsSound :
      (e : TelexEngine) (c : ℕ)
      → IsConsistent e
      → IsSound graphemes e.token.rendered (process_character graphemes e c)
  unfolding process_character
  character-IsSound e c v = elim (Option-cases (boundary_from_char c)) [
    | inl n ↦ elim (Bool-cases (is_ascii c)) [
      | inl k ↦
          let (longer, l) = compose-snoc e.token.raw_ascii e.token.rendered c v.composed k in
          rw
            (
              process_character_accepted graphemes e c n k,
              push_character_lem graphemes e c longer k l,
            )
            (rendering-IsSound _ e.token.rendered longer l)
      | inr k ↦
          rw (process_character_refused graphemes e c n k)
            (record { consistent = v; visible = refl; no_panic = λ h. cc })
    ]
    | inr (b, s) ↦ rw (s, process_character) (boundary-IsSound graphemes e.token.rendered e b)
  ]

  process-IsSound :
      (e : TelexEngine) (ev : EngineEvent)
      → IsConsistent e
      → IsSound graphemes e.token.rendered (process graphemes e ev)
  unfolding process
  process-IsSound e (character c) v = character-IsSound e c v
  process-IsSound e backspace v = elim (Option-cases (pop_last e.token.raw_ascii).1) [
    | inl n ↦
        rw (process_backspace_nothing graphemes e n)
          (record { consistent = v; visible = refl; no_panic = λ h. cc })
    | inr (c, s) ↦
        let (shorter, k) = compose-pop_last e.token.raw_ascii e.token.rendered v.composed in
        rw (process_backspace_lem graphemes e shorter c s k)
          (rendering-IsSound _ e.token.rendered shorter k)
  ]
  process-IsSound e (boundary b) v = boundary-IsSound graphemes e.token.rendered e b

  -- The engine keeps its invariant through any sequence of events: the rendered token is the
  -- composition of the raw one, and all raw characters are ASCII; if the grapheme clusters of a
  -- text make up the text.
  pub process_all-IsConsistent :
      (e : TelexEngine) (evs : List EngineEvent)
      → IsConsistent e
      → IsConsistent (process_all graphemes e evs)
        × (all is_ascii (process_all graphemes e evs).token.raw_ascii ≡ true)
  unfolding process_all
  process_all-IsConsistent e [] v =
      (v, (compose-ok_iff e.token.raw_ascii).1 (e.token.rendered, v.composed))
  process_all-IsConsistent e (ev ∷ evs) v =
      process_all-IsConsistent (process graphemes e ev).0 evs (process-IsSound e ev v).consistent

  -- A call on an engine whose rendered token is the composition of its raw one does not panic, and
  -- its action takes the text that was rendered to the text that is rendered now, if the grapheme
  -- clusters of a text make up the text.
  pub process_action :
      (e : TelexEngine) (ev : EngineEvent)
      → IsConsistent e
      → ((process graphemes e ev).1 ≢ err panicked)
        × (shown graphemes e.token.rendered (process graphemes e ev).1
            ≡ (process graphemes e ev).0.token.rendered)
  process_action e ev v = let s = process-IsSound e ev v in (s.no_panic, s.visible)

  -- On an engine that keeps its invariant, backspace after a character that was accepted into the
  -- token (ASCII, and no boundary) takes the engine back to where it was, and the two actions
  -- together leave the text as it was, if the grapheme clusters of a text make up the text.
  pub process-backspace :
      (e : TelexEngine) (c : ℕ)
      → IsConsistent e
      → boundary_from_char c ≡ none
      → is_ascii c ≡ true
      → let (e', pushed) = process graphemes e (character c) in
        let (e'', popped) = process graphemes e' backspace in
        (e'' ≡ e)
        × (shown graphemes (shown graphemes e.token.rendered pushed) popped ≡ e.token.rendered)
  unfolding process
  process-backspace e c v n k =
      let raw : Str = e.token.raw_ascii in
      let old : Str = e.token.rendered in
      let (longer, l) = compose-snoc raw old c v.composed k in
      let e' : TelexEngine = record {
        token = record { raw_ascii = raw ++ c ∷ []; rendered = longer };
      } in
      let pushed =
        process_character_accepted graphemes e c n k
        ∙ push_character_lem graphemes e c longer k l in
      let back = ap (λ r. r.0) (pop_last-snoc raw c) in
      let popped =
        process_backspace_lem graphemes e' old c (ap (λ r. r.1) (pop_last-snoc raw c))
          (ap compose back ∙ v.composed) in
      rw (pushed, popped, back)
        (
          refl,
          rw (apply_edit_plan-edit_plan_between graphemes join_graphemes old longer)
              (apply_edit_plan-edit_plan_between graphemes join_graphemes longer old),
        )
