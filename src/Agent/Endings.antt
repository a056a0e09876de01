-- ===== src/Agent/Endings.antt =====
-- internal/agent/investigator.go: each step of `Run` and the ways in which it ends.
use kube_cure.Prelude.{
  ℕ, zero, suc, ◌+◌, ◌≤◌, Bool, true, false, ◌≡◌, ◌≢◌, inl, inr, Option, none, some, List, [], ◌∷◌,
  arith, refl, ◌⊎◌, ◌∙◌,
}
use kube_cure.Text.{Text}
use kube_cure.Agent.Model.{
  ToolCall, Message, Response, ToolSpec, ModelError, deadline_exceeded, provider_error, Result, ok,
  err, Broker, Model, Clock, Usage,
}
use kube_cure.Agent.Types.{Input, StopReason, Findings}
use kube_cure.Agent.State.{LoopState, initial_state, account, exhausted, stop}
use kube_cure.Agent.Loop.{
  TurnStep, results, finished, Outcome, LoopStep, again, over, conclude, handle_calls,
  provider_failed, model_failed, after_calls, replied, generated, checked, turn_begun, turn, loop,
}
use kube_cure.Agent.Bounds.{Running, Concluded, TurnOk, handle_calls-ok}

-- A limit ended the run: the findings say so, and hold no hypothesis.
pub record Exhausted (f : Findings) : Type 0 where
  pub flagged : f.budget_exhausted ≡ true
  pub empty : f.hypotheses ≡ []
  pub reason : (f.stop_reason ≢ StopReason.concluded) × (f.stop_reason ≢ StopReason.unset)
  pub not_degraded : f.degraded ≡ false

-- The model failed: the run has no result.
pub record Aborted (f : Findings) : Type 0 where
  pub unflagged : f.budget_exhausted ≡ false
  pub empty : f.hypotheses ≡ []
  pub reason : f.stop_reason ≡ StopReason.unset

abbrev pub Ways : Input → ℕ → Findings → Option Text → LoopState → Type 0
Ways origin bound f error s =
    ((n : ℕ) × (n ≤ bound) × Concluded origin n s × (f ≡ s.findings) × (error ≡ none))
    ⊎ (Exhausted f × (error ≡ none))
    ⊎ (Aborted f × ((why : Text) × (error ≡ some why)))

pub record Ending {W : Type 0} (origin : Input) (bound : ℕ) (out : Outcome W) : Type 0 where
  pub calls : out.returned.tool_calls ≤ origin.budget.max_tool_calls
  pub taken : out.returned.turns ≤ bound
  pub duration : out.returned.duration ≡ 0
  pub way : Ways origin bound out.returned out.error out.state

abbrev LoopOk : {W : Type 0} → Input → ℕ → LoopStep W → Type 0
LoopOk origin n (again ms st w) = Running origin st × (st.findings.turns ≡ suc n)
LoopOk origin n (over out) = Ending origin (suc n) out

Ways-mono :
    (origin : Input) (a b : ℕ) (f : Findings) (error : Option Text) (s : LoopState)
    → a ≤ b
    → Ways origin a f error s
    → Ways origin b f error s
Ways-mono origin a b f error s h (inl (n, k, c, g, e)) = inl (n, omega arith, c, g, e)
Ways-mono origin a b f error s h (inr x) = inr x

Ending-mono :
    {W : Type 0} (origin : Input) (a b : ℕ) (out : Outcome W)
    → a ≤ b
    → Ending origin a out
    → Ending origin b out
Ending-mono origin a b out h e = record {
  calls = e.calls;
  taken = omega (arith, e.taken);
  duration = e.duration;
  way = Ways-mono origin a b out.returned out.error out.state h e.way;
}

-- A run that is stopped for a reason.
stop-Ending :
    {W : Type 0} (origin : Input) (bound : ℕ) (reason : StopReason) (st : LoopState) (w : W)
    → Running origin st
    → st.findings.turns ≤ bound
    → (reason ≢ StopReason.concluded) × (reason ≢ StopReason.unset)
    → Ending origin bound (record {
      returned = (stop reason st).findings;
      error = none;
      state = stop reason st;
      world = w;
    })
unfolding stop
stop-Ending origin bound reason st w r t known = record {
  calls = r.within;
  taken = t;
  duration = r.no_duration;
  way = inr (
      inl (
        record { flagged = refl; empty = refl; reason = known; not_degraded = r.not_degraded },
        refl,
      ));
}

exhausted_known :
    (expired : Bool) (st : LoopState) (reason : StopReason)
    → exhausted expired st ≡ some reason
    → (reason ≢ StopReason.concluded) × (reason ≢ StopReason.unset)
unfolding exhausted
exhausted_known expired st reason h = (λ e. ground arith, λ e. ground arith)

turn_begun-Running :
    (origin : Input) (st : LoopState) → Running origin st → Running origin (turn_begun st)
unfolding turn_begun
turn_begun-Running origin st r = ground arith

account-Running :
    (origin : Input) (u : Usage) (st : LoopState)
    → Running origin st
    → Running origin (account u st)
unfolding account
account-Running origin u st r = ground arith

turns-account : (u : Usage) (st : LoopState) → (account u st).findings.turns ≡ st.findings.turns
unfolding account
turns-account u st = refl

module _ {W : Type 0} (broker : Broker W) (model : Model W) (clock : Clock W) (prompt : Text)
    (tools : List ToolSpec) (origin : Input) where
  module _ (n : ℕ) where
    provider_failed-ok :
        (expired : Bool) (why : Text) (st : LoopState) (w : W)
        → Running origin st
        → st.findings.turns ≡ suc n
        → LoopOk origin n (provider_failed broker model clock prompt tools expired why st w)
    unfolding provider_failed conclude
    provider_failed-ok true why st w r t =
        stop-Ending origin (suc n) StopReason.wall_clock st w r (omega arith) (λ e. cc, λ e. cc)
    provider_failed-ok false why st w r t = record {
      calls = r.within;
      taken = omega arith;
      duration = r.no_duration;
      way = inr (
          inr (
            record { unflagged = r.not_exhausted; empty = r.none_reported; reason = r.undecided },
            (_, refl),
          ));
    }

    model_failed-ok :
        (e : ModelError) (st : LoopState) (w : W)
        → Running origin st
        → st.findings.turns ≡ suc n
        → LoopOk origin n (model_failed broker model clock prompt tools e st w)
    unfolding model_failed conclude
    model_failed-ok deadline_exceeded st w r t =
        stop-Ending origin (suc n) StopReason.wall_clock st w r (omega arith) (λ e. cc, λ e. cc)
    model_failed-ok (provider_error why) st w r t =
        let (expired, w') = clock.expired w in provider_failed-ok expired why st w' r t

    after_calls-ok :
        (messages : List Message) (step : TurnStep W)
        → TurnOk origin (suc n) step
        → LoopOk origin n (after_calls broker model clock prompt tools messages step)
    unfolding after_calls conclude
    after_calls-ok messages (results rs st w) k = k
    after_calls-ok messages (finished st w) k = record {
      calls = k.calls;
      taken = omega (arith, k.taken);
      duration = k.still;
      way = inl (suc n, omega arith, k, refl, refl);
    }

    replied-ok :
        (calls : List ToolCall) (messages : List Message) (st : LoopState) (w : W)
        → Running origin st
        → st.findings.turns ≡ suc n
        → LoopOk origin n (replied broker model clock prompt tools calls messages st w)
    unfolding replied
    replied-ok [] messages st w r t = (r, t)
    replied-ok (c ∷ cs) messages st w r t =
        after_calls-ok messages (handle_calls broker [] (c ∷ cs) st w)
          (handle_calls-ok broker origin (suc n) (c ∷ cs) [] st w r t)

    generated-ok :
        (messages : List Message) (answer : Result ModelError Response) (st : LoopState) (w : W)
        → Running origin st
        → st.findings.turns ≡ suc n
        → LoopOk origin n (generated broker model clock prompt tools messages answer st w)
    unfolding generated
    generated-ok messages (err e) st w r t = model_failed-ok e st w r t
    generated-ok messages (ok resp) st w r t =
        replied-ok _ _ (account resp.usage st) w (account-Running origin resp.usage st r)
          (turns-account resp.usage st ∙ t)

    checked-ok :
        (reason : Option StopReason) (messages : List Message) (st : LoopState) (w : W)
        → ((x : StopReason) → reason ≡ some x → (x ≢ StopReason.concluded) × (x ≢ StopReason.unset))
        → Running origin st
        → st.findings.turns ≡ n
        → LoopOk origin n (checked broker model clock prompt tools reason messages st w)
    unfolding checked conclude turn_begun
    checked-ok (some reason) messages st w known r t =
        stop-Ending origin (suc n) reason st w r (omega arith) (known reason refl)
    checked-ok none messages st w known r t =
        generated-ok messages _ (turn_begun st) _ (turn_begun-Running origin st r) (omega arith)

    turn-ok :
        (messages : List Message) (st : LoopState) (w : W)
        → Running origin st
        → st.findings.turns ≡ n
        → LoopOk origin n (turn broker model clock prompt tools messages st w)
    unfolding turn
    turn-ok messages st w r t =
        let (expired, w') = clock.expired w in
        checked-ok (exhausted expired st) messages st w' (exhausted_known expired st) r t

  next-ok :
      (n rounds bound : ℕ) (step : LoopStep W)
      → n + suc rounds ≡ bound
      → LoopOk origin n step
      → ((messages : List Message) (st : LoopState) (w : W)
          → Running origin st
          → st.findings.turns ≡ suc n
          → Ending origin bound (loop broker model clock prompt tools rounds messages st w))
      → Ending origin bound (elim step [
        | over outcome ↦ outcome
        | again messages' st' w' ↦ loop broker model clock prompt tools rounds messages' st' w'
      ])
  next-ok n rounds bound (over out) e k ih = Ending-mono origin (suc n) bound out (omega arith) k
  next-ok n rounds bound (again messages st w) e k ih = ih messages st w k.0 k.1

  pub loop-ok :
      (rounds n bound : ℕ) (messages : List Message) (st : LoopState) (w : W)
      → n + rounds ≡ bound
      → Running origin st
      → st.findings.turns ≡ n
      → Ending origin bound (loop broker model clock prompt tools rounds messages st w)
  unfolding loop
  loop-ok zero n bound messages st w e r t =
      stop-Ending origin bound StopReason.turn_limit st w r (omega arith) (λ e. cc, λ e. cc)
  loop-ok (suc rounds) n bound messages st w e r t =
      next-ok n rounds bound (turn broker model clock prompt tools messages st w) e
        (turn-ok n messages st w r t)
        (λ messages' st' w' r' t'.
          loop-ok rounds (suc n) bound messages' st' w' (omega arith) r' t')

pub initial-Running : (input : Input) (started : ℕ) → Running input (initial_state input started)
unfolding initial_state
initial-Running input started = ground arith

pub turns-initial : (input : Input) (started : ℕ) → (initial_state input started).findings.turns ≡ 0
unfolding initial_state
turns-initial input started = refl
