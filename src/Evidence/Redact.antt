-- ===== src/Evidence/Redact.antt =====
-- internal/evidence/redact.go. A redactor is a compiled pattern and a replacement: how many matches
-- the pattern has in a text, and the text with all of them replaced.
use kube_cure.Prelude.{
  ℕ, ◌+◌, ◌-◌, ◌%◌, ◌≤◌, true, false, List, [], ◌∷◌, ◌++◌, length, take, drop, leb, ◌==◌,
  if◌then◌else◌, arith, length-append, length-take-le, length-drop,
}
use kube_cure.Text.{Text, codes}

pub record Redactor : Type 0 where
  pub name : Text
  pub matches : Text → ℕ
  pub replace_all : Text → Text

-- The count is an int32, kept as its bit pattern.
unfoldable pub redact_from : List Redactor → Text → ℕ → Text × ℕ
redact_from [] content count = (content, count)
redact_from (r ∷ rest) content count =
    let found = r.matches content in
    elim (found == 0) [
      | true ↦ redact_from rest content count
      | false ↦ redact_from rest (r.replace_all content) ((count + found) % 4294967296)
    ]

unfoldable pub redact : List Redactor → Text → Text × ℕ
unfolding redact_from
redact redactors content = redact_from redactors content 0

unfoldable pub marker : Text
marker = codes "[...truncated, showing the most recent output...]\n"

unfoldable pub truncate : Text → ℕ → Text
truncate content limit =
    if leb (length content) limit
    then content
    else if leb limit (length marker)
    then take limit content
    else marker ++ drop (length content - (limit - length marker)) content

-- A truncated text is within the limit.
pub truncate_bounds : (content : Text) (limit : ℕ) → length (truncate content limit) ≤ limit
unfolding truncate
truncate_bounds content limit = ground (
  arith,
  length-take-le limit content,
  length-append marker (drop (length content - (limit - length marker)) content),
  length-drop (length content - (limit - length marker)) content,
)
