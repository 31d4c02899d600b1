-- ===== src/Transport/Request/Identity.antt =====
-- Which handoffs become requests in crates/zonkey-service/src/transport.rs, and under which id.
use zon_key.Prelude.{
  ℕ, zero, suc, ◌+◌, ◌*◌, ◌-◌, ◌/◌, ◌%◌, ◌^◌, ◌<◌, ◌≡◌, ◌≢◌, ◌↔◌, refl, sym, ap, ◌∙◌, false, some,
  [], ◌∷◌, ◌++◌, ok, arith, Bool-cases, Option-cases, inl, inr, ltb, drop,
}
use zon_key.Text.{Str, is_empty}
use zon_key.Service.Plan.{RestorePlan, RestorePlanHandoff}
use zon_key.Service.Processor.{DiagnosticDecisionProcessor}
use zon_key.Service.Handoff.{
  is_malformed, current_restore_handoff, evaluate_internal_execution_gate,
  revalidate_restore_handoff, passed_for_external_validation,
}
use zon_key.Service.Handoff.Gate.{no_plan-rejects, evaluate_internal_execution_gate-passed_iff}
use zon_key.Transport.Request.{
  HandoffRequest, decimal, request_id_of, request_of, has_malformed_span, build_host_request,
}

-- The number that digits stand for, after those that stand for `n`.
value_after : ℕ → Str → ℕ
value_after n [] = n
value_after n (c ∷ cs) = value_after (n * 10 + (c - b'0')) cs

value_after-append :
    (n : ℕ) (xs ys : Str) → value_after n (xs ++ ys) ≡ value_after (value_after n xs) ys
unfolding value_after
value_after-append n [] ys = refl
value_after-append n (x ∷ xs) ys = value_after-append (n * 10 + (x - b'0')) xs ys

value_after-decimal : (fuel n : ℕ) → n < 10 ^ fuel → value_after 0 (decimal fuel n) ≡ n
unfolding value_after decimal
value_after-decimal zero n h = omega arith
value_after-decimal (suc fuel) n h = elim (Bool-cases (ltb n 10)) [
  | inl s ↦ rw s (omega arith)
  | inr s ↦
      let rest = value_after-decimal fuel (n / 10) (omega arith) in
      rw (s, value_after-append 0 (decimal fuel (n / 10)) ((b'0' + n % 10) ∷ []), rest)
        (omega arith)
]

-- Two plans of different generations, below 2^64, have different request ids.
request_id_of-injective :
    (a b : ℕ) → a < 2 ^ 64 → b < 2 ^ 64 → a ≢ b → request_id_of a ≢ request_id_of b
unfolding request_id_of
request_id_of-injective a b h k differ e = differ (
    sym (value_after-decimal 20 a (omega arith))
    ∙ ap (λ s. value_after 0 (drop 8 s)) e
    ∙ value_after-decimal 20 b (omega arith))

passed_span :
    (s : DiagnosticDecisionProcessor) (h : RestorePlanHandoff) (plan : RestorePlan)
    → s.last_restore_plan ≡ some plan
    → evaluate_internal_execution_gate s h ≡ passed_for_external_validation
    → has_malformed_span h ≡ false
unfolding evaluate_internal_execution_gate revalidate_restore_handoff is_malformed
    has_malformed_span
passed_span s h plan p e = ground arith

-- Where the gate passes, the spans are well formed.
span_passes :
    (s : DiagnosticDecisionProcessor) (h : RestorePlanHandoff)
    → evaluate_internal_execution_gate s h ≡ passed_for_external_validation
    → has_malformed_span h ≡ false
span_passes s h e = elim (Option-cases s.last_restore_plan) [
  | inl n ↦ absurd ((no_plan-rejects s h n).0 e)
  | inr (plan, p) ↦ passed_span s h plan p e
]

ok-gate :
    (s : DiagnosticDecisionProcessor) (h : RestorePlanHandoff) (r : HandoffRequest)
    → build_host_request s h ≡ ok r
    → (evaluate_internal_execution_gate s h ≡ passed_for_external_validation) × (r ≡ request_of h)
unfolding build_host_request
ok-gate s h r e = ground arith

gate-ok :
    (s : DiagnosticDecisionProcessor) (h : RestorePlanHandoff)
    → current_restore_handoff s ≡ some h
    → evaluate_internal_execution_gate s h ≡ passed_for_external_validation
    → build_host_request s h ≡ ok (request_of h)
unfolding build_host_request
gate-ok s h c e = rw (c, e, span_passes s h e, build_host_request) refl

-- A handoff becomes a request exactly when it is the one that the current plan gives and something
-- was rendered; and the request is then made of that handoff.
pub build_host_request-ok_iff :
    (s : DiagnosticDecisionProcessor) (h : RestorePlanHandoff) (r : HandoffRequest)
    → (build_host_request s h ≡ ok r) ↔ (
        (current_restore_handoff s ≡ some h)
        × (is_empty h.rendered_token ≡ false)
        × (r ≡ request_of h))
build_host_request-ok_iff s h r = (
  λ e.
      let (g, same) = ok-gate s h r e in
      let (c, k) = (evaluate_internal_execution_gate-passed_iff s h).0 g in (c, k, same),
  λ (c, k, same).
      rw same (gate-ok s h c ((evaluate_internal_execution_gate-passed_iff s h).1 (c, k))),
)
