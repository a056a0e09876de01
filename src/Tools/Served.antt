-- ===== src/Tools/Served.antt =====
-- cmd/kubecure-mcp/main.go and internal/tools/mcp.go: the server that the command runs.
use kube_cure.Prelude.{
  ℤ, pos_part, ◌≡◌, ◌≢◌, true, false, refl, ap, sym, subst, ◌∙◌, Option, none, some, List, [], ◌∷◌,
  ◌++◌, map, All, arith,
}
use kube_cure.Text.{Text, is_empty}
use kube_cure.Api.Diagnosis.{Diagnosis}
use kube_cure.Cluster.{Answer, found, refused}
use kube_cure.Agent.Model.{ToolSpec, ok}
use kube_cure.Tools.Scope.{Scope, scope_for_diagnosis}
use kube_cure.Tools.Broker.{bind_to}
use kube_cure.Tools.Catalog.{Registry, catalog}
use kube_cure.Tools.Schemas.{specs}
use kube_cure.Tools.Mcp.{
  McpServer, new_mcp_server, tool_of, parse_target, main, main_with, serve_diagnosis,
  server_version,
}
use kube_cure.Tools.Target.{parse_target_iff}

offered_names :
    (registry : Registry) (scope : Scope)
    → map (λ t. t.name) (map tool_of specs) ≡ map (λ t. t.0) (catalog registry scope)
unfolding tool_of specs catalog
offered_names registry scope = refl

offered_read_only : (ts : List ToolSpec) → All (λ t. t.read_only_hint ≡ true) (map tool_of ts)
unfolding tool_of
offered_read_only [] = tt
offered_read_only (t ∷ ts) = (refl, offered_read_only ts)

-- What is known of the server that the command runs for a flag and a ceiling.
pub record Served (get_diagnosis : Text → Text → Answer Diagnosis) (target : Text) (max_calls : ℤ)
    (server : McpServer) : Type 0 where
  pub namespace : Text
  pub name : Text
  pub diagnosis : Diagnosis
  pub written : target ≡ namespace ++ 47 ∷ name
  pub in_two : All (λ x. x ≢ 47) namespace
  pub given : (namespace ≢ []) × (name ≢ [])
  pub loaded : get_diagnosis namespace name ≡ found diagnosis
  pub bound : server.broker ≡ bind_to (scope_for_diagnosis diagnosis (pos_part max_calls))
  pub offered :
      (registry : Registry)
      → map (λ t. t.name) server.tools ≡ map (λ t. t.0) (catalog registry server.broker.scope)
  pub read_only : All (λ t. t.read_only_hint ≡ true) server.tools

filled : (s : Text) → is_empty s ≡ false → s ≢ []
filled s h e = ground arith

serve_diagnosis-found :
    (namespace name : Text) (max_calls : ℤ) (a : Answer Diagnosis) (server : McpServer)
    → serve_diagnosis namespace name max_calls a ≡ ok server
    → (d : Diagnosis) × (a ≡ found d)
      × (server
          ≡ new_mcp_server (bind_to (scope_for_diagnosis d (pos_part max_calls))) server_version)
unfolding serve_diagnosis
serve_diagnosis-found namespace name max_calls (found d) server h = (d, refl, ground arith)
serve_diagnosis-found namespace name max_calls (refused e) server h = absurd (ground arith)

main_with-given :
    (get_diagnosis : Text → Text → Answer Diagnosis) (max_calls : ℤ) (o : Option (Text × Text))
    (server : McpServer)
    → main_with get_diagnosis max_calls o ≡ ok server
    → (namespace : Text) × (name : Text) × (o ≡ some (namespace, name))
      × (serve_diagnosis namespace name max_calls (get_diagnosis namespace name) ≡ ok server)
unfolding main_with
main_with-given get_diagnosis max_calls none server h = absurd (ground arith)
main_with-given get_diagnosis max_calls (some (namespace, name)) server h =
    (namespace, name, refl, h)

-- If the command runs a server, then the flag is a namespace and a name with a slash between them,
-- neither of them empty and no slash in the namespace; the diagnosis of that name was found in that
-- namespace; the server's broker is bound to its scope under the ceiling of the other flag; and the
-- tools that the server offers bear the names of the catalogue, in its order, all marked as
-- read-only.
pub main_serves :
    (get_diagnosis : Text → Text → Answer Diagnosis) (target : Text) (max_calls : ℤ)
    (server : McpServer)
    → main get_diagnosis target max_calls ≡ ok server
    → Served get_diagnosis target max_calls server
unfolding main new_mcp_server
main_serves get_diagnosis target max_calls server h =
    let (namespace, name, parsed, serving) =
      main_with-given get_diagnosis max_calls (parse_target target) server h in
    let (d, got, made) =
      serve_diagnosis-found namespace name max_calls (get_diagnosis namespace name) server
        serving in
    let (whole, clean, left, right) = (parse_target_iff target namespace name).0 parsed in
    record {
      namespace = namespace;
      name = name;
      diagnosis = d;
      written = whole;
      in_two = clean;
      given = (filled namespace left, filled name right);
      loaded = got;
      bound = ap (λ s. s.broker) made;
      offered = λ registry.
          ap (λ s. map (λ t. t.name) s.tools) made ∙ offered_names registry server.broker.scope;
      read_only =
          subst (λ s. All (λ t. t.read_only_hint ≡ true) s.tools) (sym made)
            (offered_read_only specs);
    }
