-- ===== src/Agent/Prompt.antt =====
-- internal/agent/prompt.go: how evidence enters the conversation.
use kube_cure.Prelude.{
  ℕ, zero, suc, ◌==◌, Bool, true, false, not, ◌&&◌, List, [], ◌∷◌, ◌++◌, if◌then◌else◌, ◌≡◌, refl,
}
use kube_cure.Text.{Text, codes, is_empty, join, quote}
use kube_cure.Agent.Types.{BaselineItem, Requirement, Input}

unfoldable pub has_prefix : Text → Text → Bool
has_prefix [] s = true
has_prefix (a ∷ p) [] = false
has_prefix (a ∷ p) (b ∷ s) = a == b && has_prefix p s

unfoldable pub closing_tag : Text
closing_tag = codes "</evidence"

unfoldable pub escaped_tag : Text
escaped_tag = codes "<\\/evidence"

-- strings.ReplaceAll of the closing tag. `skip` counts the bytes of a found tag still to pass.
unfoldable pub neutralise : ℕ → Text → Text
neutralise skip [] = []
neutralise zero (c ∷ s) =
    let found = has_prefix closing_tag (c ∷ s) in
    let rest = neutralise (if found then 9 else 0) s in
    if found then escaped_tag ++ rest else c ∷ rest
neutralise (suc skip) (c ∷ s) = neutralise skip s

unfoldable pub wrap_evidence : Text → Text → Text → Text
wrap_evidence id source content =
    codes "<evidence id="
    ++ (quote id
        ++ (codes " source="
            ++ (quote source ++ (codes ">\n" ++ (neutralise 0 content ++ codes "\n</evidence>")))))

unavailable_kinds : List Requirement → List Text
unavailable_kinds [] = []
unavailable_kinds (r ∷ rs) =
    if not r.collected && not r.obtainable
    then r.kind ∷ unavailable_kinds rs
    else unavailable_kinds rs

fact_lines : List Text → Text
fact_lines [] = []
fact_lines (f ∷ fs) = f ++ (codes "\n" ++ fact_lines fs)

baseline_text : List BaselineItem → Text
baseline_text [] = []
baseline_text (item ∷ rest) =
    wrap_evidence item.id item.kind item.excerpt ++ (codes "\n" ++ baseline_text rest)

unavailable_text : List Text → Text
unavailable_text [] = []
unavailable_text (k ∷ ks) =
    codes "\nRequired evidence that cannot be obtained in this cluster: "
    ++ (join (codes ", ") (k ∷ ks)
        ++ codes ". Reason without it, and do not invent values it would have provided.\n")

unfoldable pub initial_context : Input → Text
unfolding unavailable_kinds fact_lines baseline_text unavailable_text
initial_context input =
    codes "Failure type: "
    ++ (input.failure_type
        ++ (codes "\nWorkload: "
            ++ (input.workload
                ++ (codes " in namespace "
                    ++ (input.namespace
                        ++ (codes "\n"
                            ++ ((if is_empty input.container
                                  then []
                                  else codes "Container: " ++ (input.container ++ codes "\n"))
                                ++ (fact_lines input.facts
                                    ++ (codes
                                          "\nBaseline evidence, gathered before this investigation began. Excerpts may be truncated; call the corresponding tool for the full content.\n\n"
                                        ++ (baseline_text input.baseline
                                            ++ unavailable_text
                                                (unavailable_kinds input.requirements)))))))))))

neutralise_test : neutralise 0 (codes "a</evidence>b</evidenc") ≡ codes "a<\\/evidence>b</evidenc"
unfolding neutralise has_prefix closing_tag escaped_tag
neutralise_test = refl
