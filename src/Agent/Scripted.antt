-- ===== src/Agent/Scripted.antt =====
-- internal/agent/scripted.go: the scripted model, whose state is the requests that it was sent. Its
-- lock is not modelled: the loop sends one request after another.
use kube_cure.Prelude.{ℕ, zero, suc, Option, none, some, List, [], ◌∷◌, ◌++◌, length}
use kube_cure.Text.{Text, codes, show_nat}
use kube_cure.Agent.Model as agent
use kube_cure.Agent.Model.{
  Role, ToolCall, Usage, Request, Response, ModelError, provider_error, Result, ok, err,
}

-- One scripted reply, from the request.
abbrev pub Turn : Type 0
Turn = Request → Result ModelError Response

unfoldable pub get_elem? : List Turn → ℕ → Option Turn
get_elem? [] i = none
get_elem? (t ∷ ts) zero = some t
get_elem? (t ∷ ts) (suc i) = get_elem? ts i

unfoldable pub exhausted_text : ℕ → Text
exhausted_text turns = codes "script exhausted after " ++ (show_nat turns ++ codes " turns")

unfoldable pub play : List Turn → Option Turn → Request → Result ModelError Response
unfolding exhausted_text
play turns none req = err (provider_error (exhausted_text (length turns)))
play turns (some turn) req = turn req

unfoldable pub generate :
    List Turn → Request → List Request → Result ModelError Response × List Request
unfolding get_elem? play
generate turns req requests =
    (play turns (get_elem? turns (length requests)) req, requests ++ req ∷ [])

unfoldable pub scripted_model : List Turn → agent.Model (List Request)
unfolding generate
scripted_model turns = record { name = codes "scripted"; generate = generate turns }

-- `Calls`: a turn that makes the given calls.
unfoldable pub calls : Usage → List ToolCall → Turn
calls usage tool_calls req = ok (record {
  message = record {
    role = Role.model;
    text = [];
    tool_calls = tool_calls;
    tool_results = [];
    provider_state = none;
  };
  usage = usage;
})
