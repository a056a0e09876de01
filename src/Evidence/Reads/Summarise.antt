-- ===== src/Evidence/Reads/Summarise.antt =====
-- `summarise` and `toJSON` of internal/evidence/collector.go.
use kube_cure.Prelude.{
  ℕ, suc, ◌≡◌, refl, ◌&&◌, Option, none, some, [], ◌∷◌, ltb, ◌==◌, length, take, if◌then◌else◌,
}
use kube_cure.Text.{Text, codes}
use kube_cure.Json.{Json}
use kube_cure.Json.Print.{marshal_indent}
use kube_cure.Evidence.Collect.{Gathered, content, unreadable}
use kube_cure.Evidence.Source.{ReadError, absent, forbidden, failure, Fetched, got, refused}

-- strings.Index for one byte
unfoldable pub index_byte : Text → ℕ → Option ℕ
index_byte [] c = none
index_byte (x ∷ s) c =
    if x == c then some 0 else elim (index_byte s c) [ none ↦ none | some i ↦ some (suc i) ]

abbrev pub summary_limit : ℕ
summary_limit = 160

-- A long message is cut at its first colon, if that is not the first byte.
unfoldable pub shorten : Text → Text
unfolding index_byte
shorten msg = elim (index_byte msg 58) [
  | none ↦ msg
  | some i ↦ if ltb 0 i && ltb summary_limit (length msg) then take i msg else msg
]

unfoldable pub summarise : ReadError → Text
unfolding shorten
summarise absent = codes "not found"
summarise forbidden = codes "access denied by RBAC"
summarise (failure msg) = shorten msg

unfoldable pub to_json : Json → Gathered
to_json j = content (marshal_indent j)

-- `if err := ...; err != nil { return "", summarise(err) }`
abbrev pub reading : {A : Type 0} → Fetched A → (A → Gathered) → Gathered
reading (got a) next = next a
reading (refused e) next = unreadable (summarise e)

index_byte_test : index_byte (codes "get pods: timeout") 58 ≡ some 8
unfolding index_byte
index_byte_test = refl
