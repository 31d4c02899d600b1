-- ===== src/Policy/Safety.antt =====
-- What the policy of crates/zonkey-policy/src/lib.rs lets through.
use zon_key.Prelude.{◌≡◌, ◌⊎◌, refl, true, false, some, List, arith, inl, inr}
use zon_key.Text.{Str, concat}
use zon_key.Types.Float.{Confidence, english_exact, technical_exact, confidence_ge}
use zon_key.Types.{
  InputContext, writing, technical_editor, DecisionReason, restore_english, EditPlan,
}
use zon_key.Token.{edit_plan_between, apply_edit_plan}
use zon_key.Token.Edits.{apply_edit_plan-edit_plan_between}
use zon_key.Detect.Evidence.{LexicalEvidence, candidate}
use zon_key.Policy.{permits_candidate, is_technical_reason, is_blocked_context, decide}

-- The contexts and the evidence for which a token may be restored.
abbrev pub MayRestore : InputContext → Confidence → DecisionReason → Type 0
MayRestore context confidence reason =
    ((context ≡ writing) × (confidence_ge confidence english_exact ≡ true))
    ⊎ ((context ≡ technical_editor)
        × (confidence_ge confidence technical_exact ≡ true)
        × (is_technical_reason reason ≡ true))

permits_candidate-MayRestore :
    (context : InputContext) (confidence : Confidence) (reason : DecisionReason)
    → permits_candidate context confidence reason ≡ true
    → MayRestore context confidence reason
unfolding permits_candidate
permits_candidate-MayRestore writing confidence reason h = inl (refl, h)
permits_candidate-MayRestore technical_editor confidence reason h =
    inr (refl, ground arith, ground arith)
permits_candidate-MayRestore _ confidence reason h = cc

MayRestore-permits_candidate :
    (context : InputContext) (confidence : Confidence) (reason : DecisionReason)
    → MayRestore context confidence reason
    → (permits_candidate context confidence reason ≡ true) × (is_blocked_context context ≡ false)
unfolding permits_candidate is_blocked_context
MayRestore-permits_candidate writing confidence reason h = ground arith
MayRestore-permits_candidate technical_editor confidence reason h = ground arith
MayRestore-permits_candidate _ confidence reason h = ground arith

-- A decision to restore comes from candidate evidence in a context that allows it.
pub decide-restore_english :
    (graphemes : Str → List Str) (evidence : LexicalEvidence) (context : InputContext)
    (rendered text : Str) (confidence : Confidence) (reason : DecisionReason)
    → (decide graphemes evidence context rendered).decision ≡ restore_english text confidence reason
    → (evidence ≡ candidate text confidence reason) × MayRestore context confidence reason
unfolding decide
decide-restore_english graphemes (candidate t c r) context rendered text confidence reason h =
    (ground arith, permits_candidate-MayRestore context confidence reason (ground arith))
decide-restore_english graphemes _ context rendered text confidence reason h = absurd (ground arith)

module _ (graphemes : Str → List Str) (join_graphemes : (s : Str) → concat (graphemes s) ≡ s) where
  -- The policy edits only to restore: an edit plan comes only with candidate evidence in a context
  -- that allows it at this confidence, the decision restores the text of the candidate, and the
  -- plan takes the rendered text to it, if the grapheme clusters of a text make up the text.
  pub decide-edit_plan :
      (evidence : LexicalEvidence) (context : InputContext) (rendered : Str) (plan : EditPlan)
      → (decide graphemes evidence context rendered).edit_plan ≡ some plan
      → (text : Str) × (confidence : Confidence) × (reason : DecisionReason) × (evidence
          ≡ candidate text confidence reason)
        × MayRestore context confidence reason
        × ((decide graphemes evidence context rendered).decision
            ≡ restore_english text confidence reason)
        × (apply_edit_plan graphemes rendered plan ≡ text)
  unfolding decide
  decide-edit_plan (candidate text confidence reason) context rendered plan h = (
    text,
    confidence,
    reason,
    refl,
    permits_candidate-MayRestore context confidence reason (ground arith),
    ground arith,
    rw (plan_of h) (apply_edit_plan-edit_plan_between graphemes join_graphemes rendered text),
  )
    where
      plan_of :
          (decide graphemes (candidate text confidence reason) context rendered).edit_plan
            ≡ some plan
          → plan ≡ edit_plan_between graphemes rendered text
      plan_of e = ground arith
  decide-edit_plan _ context rendered plan h = absurd (ground arith)

-- A candidate that may be restored in its context at its confidence is restored.
decide-MayRestore :
    (graphemes : Str → List Str) (text : Str) (confidence : Confidence) (reason : DecisionReason)
    (context : InputContext) (rendered : Str)
    → MayRestore context confidence reason
    → (decide graphemes (candidate text confidence reason) context rendered).decision
      ≡ restore_english text confidence reason
unfolding decide
decide-MayRestore graphemes text confidence reason context rendered h =
    let p = MayRestore-permits_candidate context confidence reason h in ground arith
