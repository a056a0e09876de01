-- ===== src/Detector/Segments.antt =====
-- internal/detector/signature.go: the parts of a name.
use kube_cure.Prelude.{
  ℕ, suc, ◌≤◌, Bool, true, false, not, [], ◌∷◌, length, take, ltb, map, if◌then◌else◌, ◌≡◌, ◌≢◌,
  refl, arith, Bool-cases, ltb_false→le, inl, inr, All, All-take, length-take-le,
}
use kube_cure.Text.{Text, trim, is_empty}
use kube_cure.Text.Trim.{StartsOff, trim-All, length-trim, trim-StartsOff, trim-ne, StartsOff-take}
use kube_cure.Api.Failure.{FailureType, crash_loop_back_off, failure_text}
use kube_cure.Detector.Name.{
  to_lower, is_name_char, replace_runs, is_edge, sanitize_name_segment, default_workload,
  workload_segment, max_workload_segment,
}

abbrev pub NameChar : ℕ → Type 0
NameChar c = is_name_char c ≡ true

pub dash-NameChar : NameChar 45
unfolding is_name_char
dash-NameChar = refl

replace_runs-NameChar : (inside : Bool) (s : Text) → All NameChar (replace_runs inside s)
unfolding replace_runs
replace_runs-NameChar inside [] = tt
replace_runs-NameChar inside (c ∷ s) =
    ground (arith, dash-NameChar, replace_runs-NameChar (not (is_name_char c)) s)

pub sanitize-NameChar : (s : Text) → All NameChar (sanitize_name_segment s)
unfolding sanitize_name_segment
sanitize-NameChar s = trim-All is_edge NameChar _ (replace_runs-NameChar false (map to_lower s))

sanitize-StartsOff : (s : Text) → StartsOff is_edge (sanitize_name_segment s)
unfolding sanitize_name_segment
sanitize-StartsOff s = trim-StartsOff is_edge _

default-NameChar : All NameChar default_workload
unfolding default_workload is_name_char
default-NameChar = (refl, (refl, (refl, tt)))

is_empty-ne : (s : Text) → is_empty s ≡ false → s ≢ []
is_empty-ne [] h = λ e. cc
is_empty-ne (c ∷ s) h = λ e. cc

-- The name before it is cut to 180 characters.
full_segment : Text → Text
full_segment s =
    let clean = sanitize_name_segment s in if is_empty clean then default_workload else clean

full_segment-NameChar : (s : Text) → All NameChar (full_segment s)
unfolding full_segment
full_segment-NameChar s = elim (Bool-cases (is_empty (sanitize_name_segment s))) [
  | inl e ↦ rw e default-NameChar
  | inr e ↦ rw e (sanitize-NameChar s)
]

default-StartsOff : StartsOff is_edge default_workload
unfolding default_workload is_edge
default-StartsOff = refl

default-ne : default_workload ≢ []
unfolding default_workload
default-ne = λ e. cc

full_segment-StartsOff : (s : Text) → StartsOff is_edge (full_segment s)
unfolding full_segment
full_segment-StartsOff s = elim (Bool-cases (is_empty (sanitize_name_segment s))) [
  | inl e ↦ rw e default-StartsOff
  | inr e ↦ rw e (sanitize-StartsOff s)
]

full_segment-ne : (s : Text) → full_segment s ≢ []
unfolding full_segment
full_segment-ne s = elim (Bool-cases (is_empty (sanitize_name_segment s))) [
  | inl e ↦ rw e default-ne
  | inr e ↦ rw e (is_empty-ne _ e)
]

workload_segment_cases {ℓ} :
    (P : Text → Type ℓ) (s : Text)
    → P (trim is_edge (take 180 (full_segment s)))
    → (length (full_segment s) ≤ 180 → P (full_segment s))
    → P (workload_segment s)
unfolding workload_segment full_segment
workload_segment_cases P s cut whole =
    elim (Bool-cases (ltb max_workload_segment (length (full_segment s)))) [
      | inl e ↦ rw e cut
      | inr e ↦ rw e (whole (ltb_false→le 180 _ e))
    ]

pub workload_segment-NameChar : (s : Text) → All NameChar (workload_segment s)
workload_segment-NameChar s =
    workload_segment_cases (All NameChar) s
      (trim-All is_edge NameChar _ (All-take NameChar 180 _ (full_segment-NameChar s)))
      (λ _. full_segment-NameChar s)

pub workload_segment-StartsOff : (s : Text) → StartsOff is_edge (workload_segment s)
workload_segment-StartsOff s =
    workload_segment_cases (StartsOff is_edge) s (trim-StartsOff is_edge _)
      (λ _. full_segment-StartsOff s)

pub length-workload_segment : (s : Text) → length (workload_segment s) ≤ 180
length-workload_segment s =
    workload_segment_cases (λ t. length t ≤ 180) s
      (omega (
        arith,
        length-trim is_edge (take 180 (full_segment s)),
        length-take-le 180 (full_segment s),
      ))
      (λ h. h)

take-ne : (n : ℕ) (s : Text) → s ≢ [] → take (suc n) s ≢ []
take-ne n [] h = h
take-ne n (c ∷ s) h = λ e. cc

pub workload_segment-ne : (s : Text) → workload_segment s ≢ []
workload_segment-ne s =
    workload_segment_cases (λ t. t ≢ []) s
      (trim-ne is_edge _ (take-ne 179 _ (full_segment-ne s))
        (StartsOff-take is_edge 180 _ (full_segment-StartsOff s)))
      (λ _. full_segment-ne s)

pub length-failure : (ft : FailureType) → length (sanitize_name_segment (failure_text ft)) ≤ 26
unfolding sanitize_name_segment trim replace_runs is_name_char is_edge to_lower failure_text
length-failure crash_loop_back_off = omega arith
length-failure _ = omega arith
