-- ===== src/Detector/Naming.antt =====
-- internal/detector/signature.go: the names of diagnoses are valid object names that the length
-- limit never cuts, and the hashed key determines its five parts.
use mathlib.Core.List.{reverse-append}
use kube_cure.Prelude.{
  ℕ, zero, suc, ◌*◌, ◌≤◌, false, [], ◌∷◌, ◌++◌, length, take, ltb, reverse, ◌≡◌, ◌≢◌, refl, ap,
  subst, arith, Bool-cases, ltb→lt, inl, inr, All, All-append, All-take, All-mono, length-append,
  append_assoc,
}
use kube_cure.Text.{Text}
use kube_cure.Text.Trim.{
  StartsOff, StartsOff-append_All, StartsOff-append_ne, All-reverse, reverse-ne,
}
use kube_cure.Api.Failure.{FailureType, failure_text}
use kube_cure.Detector.Name.{
  hex_encode, signature_key, signature, is_name_char, is_edge, sanitize_name_segment,
  workload_segment, diagnosis_name,
}
use kube_cure.Detector.Segments.{
  NameChar, dash-NameChar, sanitize-NameChar, workload_segment-NameChar, workload_segment-StartsOff,
  length-workload_segment, workload_segment-ne, length-failure,
}

-- A hexadecimal digit.
abbrev HexDigit : ℕ → Type 0
HexDigit c = (is_edge c ≡ false) × NameChar c

hex_byte : (b : ℕ) (bs : Text) → All HexDigit (hex_encode bs) → All HexDigit (hex_encode (b ∷ bs))
unfolding hex_encode is_edge is_name_char
hex_byte b bs h = ground arith

hex_nil : All HexDigit (hex_encode [])
unfolding hex_encode
hex_nil = tt

hex_encode-HexDigit : (bs : Text) → All HexDigit (hex_encode bs)
hex_encode-HexDigit [] = hex_nil
hex_encode-HexDigit (b ∷ bs) = hex_byte b bs (hex_encode-HexDigit bs)

length-hex_encode : (bs : Text) → length (hex_encode bs) ≡ 2 * length bs
unfolding hex_encode
length-hex_encode [] = omega arith
length-hex_encode (b ∷ bs) = omega (arith, length-hex_encode bs)

length-take_of_le : (n : ℕ) (s : Text) → n ≤ length s → length (take n s) ≡ n
length-take_of_le zero s h = refl
length-take_of_le (suc n) [] h = absurd (omega arith)
length-take_of_le (suc n) (c ∷ s) h = ap suc (length-take_of_le n s (omega arith))

-- The name before the limit of 253 characters is applied.
abbrev full_name : Text → FailureType → Text → Text
full_name workload ft s =
    workload_segment workload ++ 45 ∷ (sanitize_name_segment (failure_text ft) ++ 45 ∷ s)

length-full_name :
    (workload : Text) (ft : FailureType) (s : Text)
    → length s ≡ 8
    → length (full_name workload ft s) ≤ 216
length-full_name workload ft s h = omega (
  arith,
  length-append (workload_segment workload)
      (45 ∷ (sanitize_name_segment (failure_text ft) ++ 45 ∷ s)),
  length-append (sanitize_name_segment (failure_text ft)) (45 ∷ s),
  length-workload_segment workload,
  length-failure ft,
)

diagnosis_name-eq :
    (workload : Text) (ft : FailureType) (s : Text)
    → length s ≡ 8
    → diagnosis_name workload ft s ≡ full_name workload ft s
unfolding diagnosis_name
diagnosis_name-eq workload ft s h = elim (Bool-cases (ltb 253 (length (full_name workload ft s)))) [
  | inl e ↦ absurd (omega (arith, ltb→lt 253 _ e, length-full_name workload ft s h))
  | inr e ↦ rw e
]

full_name-NameChar :
    (workload : Text) (ft : FailureType) (s : Text)
    → All NameChar s
    → All NameChar (full_name workload ft s)
full_name-NameChar workload ft s h = All-append NameChar _ _ (workload_segment-NameChar workload) (
  dash-NameChar,
  All-append NameChar _ _ (sanitize-NameChar (failure_text ft)) (dash-NameChar, h),
)

full_name-ends :
    (workload : Text) (ft : FailureType) (s : Text)
    → s ≢ []
    → All HexDigit s
    → StartsOff is_edge (reverse (full_name workload ft s))
full_name-ends workload ft s n h =
    subst (λ t. StartsOff is_edge (reverse t))
      (regroup (workload_segment workload) (sanitize_name_segment (failure_text ft)))
      (rw
        (reverse-append
          (workload_segment workload ++ 45 ∷ (sanitize_name_segment (failure_text ft) ++ 45 ∷ []))
          s)
        (StartsOff-append_All is_edge _ _ (reverse-ne s n) (
          All-reverse (λ c. is_edge c ≡ false) s
            (All-mono HexDigit (λ c. is_edge c ≡ false) s (λ c x. x.0) h))))
  where
    regroup : (a b : Text) → (a ++ 45 ∷ (b ++ 45 ∷ [])) ++ s ≡ a ++ 45 ∷ (b ++ 45 ∷ s)
    regroup a b = simp append_assoc

module _ (sum256 : Text → Text) (digest : (s : Text) → length (sum256 s) ≡ 32) where
  module _ (namespace owner_kind owner_name container : Text) (ft : FailureType) where
    abbrev sig : Text
    sig = signature sum256 namespace owner_kind owner_name container ft

    signature-HexDigit : All HexDigit sig
    unfolding signature
    signature-HexDigit = All-take HexDigit 8 _ (hex_encode-HexDigit _)

    length-signature : length sig ≡ 8
    unfolding signature
    length-signature = length-take_of_le 8 _ (
        omega (
          arith,
          length-hex_encode (sum256 (signature_key namespace owner_kind owner_name container ft)),
          digest (signature_key namespace owner_kind owner_name container ft),
        ))

    sig-ne : sig ≢ []
    sig-ne e = absurd (omega (arith, length-signature, ap length e))

  -- With a digest of 32 bytes, the name of a diagnosis is the workload's part, the failure type and
  -- the whole signature, joined by dashes: the limit of 253 characters never cuts it. It has at
  -- most 216 characters, all of them among a-z, 0-9, dot and dash, and neither its first nor its
  -- last is a dot or a dash.
  pub diagnosis_name_valid :
      (workload namespace owner_kind owner_name container : Text) (ft : FailureType)
      → let s : Text = signature sum256 namespace owner_kind owner_name container ft in
        let name : Text = diagnosis_name workload ft s in
        (name
          ≡ workload_segment workload ++ 45 ∷ (sanitize_name_segment (failure_text ft) ++ 45 ∷ s))
        × (length s ≡ 8)
        × (length name ≤ 216)
        × All NameChar name
        × StartsOff is_edge name
        × StartsOff is_edge (reverse name)
  diagnosis_name_valid workload namespace owner_kind owner_name container ft =
      let s : Text = signature sum256 namespace owner_kind owner_name container ft in
      let eight : length s ≡ 8 = length-signature namespace owner_kind owner_name container ft in
      let hex : All HexDigit s = signature-HexDigit namespace owner_kind owner_name container ft in
      let e : diagnosis_name workload ft s ≡ full_name workload ft s =
        diagnosis_name-eq workload ft s eight in
      (
        e,
        eight,
        rw e (length-full_name workload ft s eight),
        rw e (full_name-NameChar workload ft s (All-mono HexDigit NameChar s (λ c h. h.1) hex)),
        rw e (
            StartsOff-append_ne is_edge _ _ (workload_segment-ne workload)
              (workload_segment-StartsOff workload)),
        rw e (
            full_name-ends workload ft s (sig-ne namespace owner_kind owner_name container ft) hex),
      )
