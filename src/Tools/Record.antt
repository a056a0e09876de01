-- ===== src/Tools/Record.antt =====
-- internal/tools/broker.go: the records of a sequence of calls.
use kube_cure.Prelude.{
  ℕ, ◌+◌, ◌-◌, ◌≤◌, ◌≡◌, ◌≢◌, refl, ap, sym, ◌∙◌, append-nil, append_assoc, List, [], ◌∷◌, ◌++◌,
  length, take, arith, leb, leb→le, Bool-cases, length-append, length-take-le, inl, inr,
}
use kube_cure.Text.{Text, codes}
use kube_cure.Json.{RawMessage}
use kube_cure.Api.Diagnosis.{ToolCall}
use kube_cure.Agent.Model.{Result, ok, err, CallError, denied, failed}
use kube_cure.Agent.Loop.{call_error_text}
use kube_cure.Evidence.Redact.{Redactor}
use kube_cure.Tools.Scope.{Scope}
use kube_cure.Tools.Catalog.{Registry}
use kube_cure.Tools.Broker.{
  Broker, clip, call, checked_call, record_of, compact_json, summarise, audit_field_limit,
}

pub clip_bounds : (s : Text) (limit : ℕ) → 3 ≤ limit → length (clip s limit) ≤ limit
unfolding clip
clip_bounds s limit h =
    ground (arith, length-append (take (limit - 3) s) (codes "..."), length-take-le (limit - 3) s)

clip-nonempty : (s : Text) → s ≢ [] → clip s audit_field_limit ≢ []
unfolding clip
clip-nonempty [] h = absurd (h refl)
clip-nonempty (c ∷ s) h = λ e. ground arith

-- What the record tells of a result: a refusal has an error.
abbrev pub Told : Result CallError Text → ToolCall → Type 0
Told (ok text) r = r.error ≡ []
Told (err (denied why)) r = (r.error ≢ []) × (r.summary ≡ [])
Told (err (failed why)) r = r.summary ≡ []

-- What the record of a call must say of its result.
pub record Recorded (name : Text) (result : Result CallError Text) (r : ToolCall) : Type 0 where
  pub tool : r.tool ≡ name
  pub arguments_bound : length r.arguments ≤ 512
  pub summary_bound : length r.summary ≤ 512
  pub error_bound : length r.error ≤ 512
  pub outcome : Told result r

record_of-Recorded :
    (redactors : List Redactor) (name : Text) (arguments : RawMessage) (millis : ℕ)
    (result : Result CallError Text)
    → Recorded name result (record_of redactors name arguments millis result)
unfolding record_of call_error_text
record_of-Recorded redactors name arguments millis (ok text) = record {
  tool = refl;
  arguments_bound = clip_bounds (compact_json arguments) 512 (omega arith);
  summary_bound = clip_bounds (summarise text) 512 (omega arith);
  error_bound = omega arith;
  outcome = refl;
}
record_of-Recorded redactors name arguments millis (err (denied why)) = record {
  tool = refl;
  arguments_bound = clip_bounds (compact_json arguments) 512 (omega arith);
  summary_bound = omega arith;
  error_bound = clip_bounds (call_error_text (denied why)) 512 (omega arith);
  outcome = (clip-nonempty (call_error_text (denied why)) (λ z. ground arith), refl);
}
record_of-Recorded redactors name arguments millis (err (failed why)) = record {
  tool = refl;
  arguments_bound = clip_bounds (compact_json arguments) 512 (omega arith);
  summary_bound = omega arith;
  error_bound = clip_bounds why 512 (omega arith);
  outcome = refl;
}

-- One request to a broker: the registry then bound, the clock around the call, and the call.
pub record Request : Type 0 where
  pub registry : Registry
  pub started : ℕ
  pub ended : ℕ
  pub name : Text
  pub arguments : RawMessage

abbrev served_one : Result CallError Text → ℕ
served_one (ok text) = 1
served_one (err e) = 0

served_one_le : (r : Result CallError Text) → served_one r ≤ 1
served_one_le (ok text) = omega arith
served_one_le (err e) = omega arith

-- How many of the answers are results of tools.
unfoldable pub served_count : List (Result CallError Text) → ℕ
served_count [] = 0
served_count (a ∷ as') = served_one a + served_count as'

-- The requests, their answers and their records, one of each.
abbrev pub Logged : List Request → List (Result CallError Text) → List ToolCall → Type 0
Logged [] [] [] = Unit
Logged (q ∷ qs) (a ∷ as') (r ∷ rs) = Recorded q.name a r × Logged qs as' rs
Logged _ _ _ = ⊥

module _ (redactors : List Redactor) where
  -- The requests one after another, and what each is answered.
  unfoldable pub serve : List Request → Broker → List (Result CallError Text) × Broker
  serve [] b = ([], b)
  serve (q ∷ qs) b =
      let done = call redactors q.registry q.started q.ended b q.name q.arguments in
      let rest = serve qs done.1 in (done.0 ∷ rest.0, rest.1)

  call_at_ceiling :
      (q : Request) (b : Broker)
      → b.scope.max_calls ≤ length b.calls
      → served_one (call redactors q.registry q.started q.ended b q.name q.arguments).0 ≡ 0
  unfolding call checked_call
  call_at_ceiling q b h = ground arith

  call_keeps :
      (q : Request) (b : Broker)
      → let done = call redactors q.registry q.started q.ended b q.name q.arguments in
        (done.1.scope ≡ b.scope)
        × ((r : ToolCall) × (done.1.calls ≡ b.calls ++ r ∷ []) × Recorded q.name done.0 r)
  unfolding call
  call_keeps q b = (refl, (_, refl, record_of-Recorded redactors q.name q.arguments _ _))

  served_step :
      (q : Request) (qs : List Request) (b : Broker)
      → let done = call redactors q.registry q.started q.ended b q.name q.arguments in
        done.1.scope.max_calls ≡ b.scope.max_calls
        → length done.1.calls ≡ length b.calls + 1
        → served_count (serve qs done.1).0 ≤ done.1.scope.max_calls - length done.1.calls
        → served_one done.0 + served_count (serve qs done.1).0 ≤ b.scope.max_calls - length b.calls
  served_step q qs b limit more rest = elim (Bool-cases (leb b.scope.max_calls (length b.calls))) [
    | inl e ↦ omega (
      arith,
      call_at_ceiling q b (leb→le b.scope.max_calls (length b.calls) e),
      limit,
      more,
      rest,
    )
    | inr e ↦
        let one =
          served_one_le (call redactors q.registry q.started q.ended b q.name q.arguments).0 in
        let below : length b.calls + 1 ≤ b.scope.max_calls = ground arith in
        omega (arith, one, below, limit, more, rest)
  ]

  pub served_bound :
      (qs : List Request) (b : Broker)
      → served_count (serve qs b).0 ≤ b.scope.max_calls - length b.calls
  unfolding serve served_count
  served_bound [] b = omega arith
  served_bound (q ∷ qs) b =
      let done = call redactors q.registry q.started q.ended b q.name q.arguments in
      let (scope, (r, calls, recorded)) = call_keeps q b in
      served_step q qs b (ap Scope.max_calls scope)
        (ap length calls ∙ length-append b.calls (r ∷ [])) (served_bound qs done.1)

  -- The records of the requests stand after those that were there, one for each and in their order.
  pub logged :
      (qs : List Request) (b : Broker)
      → (rs : List ToolCall) × ((serve qs b).1.calls ≡ b.calls ++ rs) × Logged qs (serve qs b).0 rs
  unfolding serve
  logged [] b = ([], sym (append-nil b.calls), tt)
  logged (q ∷ qs) b =
      let done = call redactors q.registry q.started q.ended b q.name q.arguments in
      let (scope, (r, calls, recorded)) = call_keeps q b in
      let (rs, more, rest) = logged qs done.1 in
      (r ∷ rs, more ∙ ap (λ z. z ++ rs) calls ∙ append_assoc b.calls (r ∷ []) rs, (recorded, rest))
