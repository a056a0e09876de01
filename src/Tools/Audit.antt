-- ===== src/Tools/Audit.antt =====
-- internal/tools/broker.go: what a sequence of calls leaves behind, and what it may return.
use kube_cure.Prelude.{
  ℕ, ◌-◌, ◌≤◌, ◌<◌, subst, ◌≡◌, ◌⊎◌, refl, sym, List, length, arith, leb, Bool-cases, ◌==◌,
  if◌then◌else◌, some, Option-cases, inl, inr,
}
use kube_cure.Text.{Text}
use kube_cure.Json.{RawMessage}
use kube_cure.Agent.Model.{Result, ok, err, CallError}
use kube_cure.Evidence.Redact.{Redactor, redact, truncate, truncate_bounds}
use kube_cure.Tools.Scope.{Scope}
use kube_cure.Tools.Catalog.{Registry, catalog}
use kube_cure.Tools.Broker.{Broker, bind_to, call, checked_call, run_tool, find_tool, scrub}
use kube_cure.Tools.Record.{Request, served_count, Logged, serve, served_bound, logged}

-- Whatever is asked of a broker bound to a scope, in any order and of any registries: at most as many
-- requests as its ceiling are answered with a result, the ceiling is the scope's, or 25 when the
-- scope gives none, and every request leaves one record, in order, refused ones included. A record
-- bears the tool's name, each of its texts has at most 512 bytes, and it has an empty error for a
-- result and a non-empty error with no summary for a refusal.
pub serve_audited :
    (redactors : List Redactor) (scope : Scope) (qs : List Request)
    → let done = serve redactors qs (bind_to scope) in
      (served_count done.0 ≤ (if scope.max_calls == 0 then 25 else scope.max_calls))
      × Logged qs done.0 done.1.calls
unfolding bind_to
serve_audited redactors scope qs =
    let (rs, all, entries) = logged redactors qs (bind_to scope) in
    (
      ceiling (served_bound redactors qs (bind_to scope)),
      subst (λ z. Logged qs (serve redactors qs (bind_to scope)).0 z) (sym all) entries,
    )
  where
    ceiling :
        {n : ℕ}
        → n ≤ (bind_to scope).scope.max_calls - 0
        → n ≤ (if scope.max_calls == 0 then 25 else scope.max_calls)
    ceiling h = ground arith

-- A call that is answered with a result was below the ceiling and of a tool of the catalogue, and its
-- result is what the tool read, redacted and then truncated, with at most 8192 bytes.
pub call_ok :
    (redactors : List Redactor) (registry : Registry) (b : Broker) (started ended : ℕ) (name : Text)
    (arguments : RawMessage) (text : Text)
    → (call redactors registry started ended b name arguments).0 ≡ ok text
    → (length b.calls < b.scope.max_calls)
      × (length text ≤ 8192)
      × ((run : RawMessage → Result CallError Text) × (raw : Text) × (find_tool name
              (catalog registry b.scope)
            ≡ some run)
          × (run arguments ≡ ok raw)
          × (text ≡ truncate (redact redactors raw).0 8192))
unfolding call checked_call run_tool scrub
call_ok redactors registry b started ended name arguments text h =
    elim (Bool-cases (leb b.scope.max_calls (length b.calls))) [
      | inl e ↦ absurd (ground arith)
      | inr e ↦ elim (Option-cases (find_tool name (catalog registry b.scope))) [
        | inl none_found ↦ absurd (ground arith)
        | inr (run, tool) ↦ elim (answered (run arguments)) [
          | inl (raw, r) ↦
              let same : truncate (redact redactors raw).0 8192 ≡ text = ground arith in
              (
                ground arith,
                rw (sym same) (truncate_bounds (redact redactors raw).0 8192),
                (run, raw, tool, r, sym same),
              )
          | inr (x, r) ↦ absurd (ground arith)
        ]
      ]
    ]
  where
    answered :
        (r : Result CallError Text)
        → ((raw : Text) × (r ≡ ok raw)) ⊎ ((x : CallError) × (r ≡ err x))
    answered (ok raw) = inl (raw, refl)
    answered (err x) = inr (x, refl)
