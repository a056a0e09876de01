-- ===== src/Detector/Name.antt =====
-- internal/detector/signature.go. The digest of crypto/sha256 is a parameter: a function from
-- bytes to bytes.
use kube_cure.Prelude.{
  ◌≡◌, refl, ℕ, ◌+◌, ◌/◌, ◌%◌, Bool, false, not, ◌&&◌, ◌||◌, Option, none, some, [], ◌∷◌, ◌++◌,
  length, take, leb, ltb, ◌==◌, map, if◌then◌else◌,
}
use kube_cure.Text.{Text, codes, join, trim, is_empty}
use kube_cure.Api.Failure.{FailureType, failure_text}
use kube_cure.Cluster.{Pod, controller_of}

abbrev pub signature_length : ℕ
signature_length = 8

abbrev pub max_name_length : ℕ
max_name_length = 253

abbrev pub max_workload_segment : ℕ
max_workload_segment = 180

hex_digit : ℕ → ℕ
hex_digit d = if ltb d 10 then 48 + d else 87 + d

-- hex.EncodeToString
unfoldable pub hex_encode : Text → Text
unfolding hex_digit
hex_encode [] = []
hex_encode (b ∷ bs) = hex_digit (b / 16 % 16) ∷ hex_digit (b % 16) ∷ hex_encode bs

-- What is hashed: the five parts of the key, with a zero byte between them.
unfoldable pub signature_key : Text → Text → Text → Text → FailureType → Text
signature_key namespace owner_kind owner_name container failure_type =
    join (0 ∷ []) (namespace ∷ owner_kind ∷ owner_name ∷ container ∷ failure_text failure_type ∷ [])

unfoldable pub signature : (Text → Text) → Text → Text → Text → Text → FailureType → Text
signature sum256 namespace owner_kind owner_name container failure_type =
    take signature_length
      (hex_encode (sum256 (signature_key namespace owner_kind owner_name container failure_type)))

-- Kind and name of the controlling reference.
unfoldable pub direct_owner : Pod → Option (Text × Text)
direct_owner pod = elim (controller_of pod.owner_references) [
  | none ↦ none
  | some ref ↦ some (ref.kind, ref.name)
]

-- strings.ToLower on ASCII
unfoldable pub to_lower : ℕ → ℕ
to_lower c = if leb 65 c && leb c 90 then c + 32 else c

-- the class [a-z0-9.-]
unfoldable pub is_name_char : ℕ → Bool
is_name_char c = leb 97 c && leb c 122 || leb 48 c && leb c 57 || c == 46 || c == 45

-- `nonNameChars.ReplaceAllString(s, "-")`: each longest run of other characters becomes one dash.
-- The first argument says that the previous character was in such a run.
unfoldable pub replace_runs : Bool → Text → Text
replace_runs inside [] = []
replace_runs inside (c ∷ s) =
    let rest = replace_runs (not (is_name_char c)) s in
    if is_name_char c then c ∷ rest else if inside then rest else 45 ∷ rest

-- the cutset "-."
unfoldable pub is_edge : ℕ → Bool
is_edge c = c == 45 || c == 46

unfoldable pub sanitize_name_segment : Text → Text
sanitize_name_segment s = trim is_edge (replace_runs false (map to_lower s))

unfoldable pub default_workload : Text
default_workload = codes "pod"

-- The workload's part of a name, at most 180 characters of it.
unfoldable pub workload_segment : Text → Text
workload_segment s =
    let clean = sanitize_name_segment s in
    let workload = if is_empty clean then default_workload else clean in
    if ltb max_workload_segment (length workload)
    then trim is_edge (take max_workload_segment workload)
    else workload

unfoldable pub diagnosis_name : Text → FailureType → Text → Text
unfolding workload_segment
diagnosis_name workload failure_type signature =
    let name =
      workload_segment workload
      ++ 45 ∷ (sanitize_name_segment (failure_text failure_type) ++ 45 ∷ signature) in
    if ltb max_name_length (length name) then take max_name_length name else name

diagnosis_name_test :
    diagnosis_name (codes "Web_App!!v2.") FailureType.oom_killed (codes "0a1b2c3d")
    ≡ codes "web-app-v2-oomkilled-0a1b2c3d"
unfolding diagnosis_name sanitize_name_segment trim replace_runs is_name_char is_edge to_lower
    default_workload failure_text
diagnosis_name_test = refl
