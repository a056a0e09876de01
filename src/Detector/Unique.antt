-- ===== src/Detector/Unique.antt =====
-- internal/detector/signature.go: the bytes that are hashed determine the failure that they stand
-- for, since no Kubernetes name holds a zero byte.
use kube_cure.Prelude.{[], ◌∷◌, ◌++◌, ◌≡◌, ◌≢◌, arith, All}
use kube_cure.Text.{Text, join}
use kube_cure.Api.Failure.{FailureType, crash_loop_back_off, failure_text}
use kube_cure.Detector.Name.{signature_key}

abbrev pub NoZero : Text → Type 0
NoZero = All (λ c. c ≢ 0)

-- The first zero byte splits a text in one way only.
split_unique :
    (a b : Text) {x y : Text} → NoZero a → NoZero b → a ++ 0 ∷ x ≡ b ++ 0 ∷ y → (a ≡ b) × (x ≡ y)
split_unique [] [] ha hb e = ground arith
split_unique [] (c ∷ b) ha hb e = absurd (hb.0 (ground arith))
split_unique (c ∷ a) [] ha hb e = absurd (ha.0 (ground arith))
split_unique (c ∷ a) (d ∷ b) {x} {y} ha hb e =
    let ih = split_unique a b {x = x} {y = y} ha.1 hb.1 (ground arith) in ground arith

failure_text_injective : (a b : FailureType) → failure_text a ≡ failure_text b → a ≡ b
unfolding failure_text
failure_text_injective crash_loop_back_off b h = ground arith
failure_text_injective _ b h = ground arith

-- Two failures with the same hashed bytes are the same failure: they agree in the namespace, the
-- owner's kind and name, the container and the failure type, where none of these texts holds a
-- zero byte.
pub signature_key_injective :
    (namespace owner_kind owner_name container : Text) (ft : FailureType)
    (namespace' owner_kind' owner_name' container' : Text) (ft' : FailureType)
    → All NoZero (namespace ∷ owner_kind ∷ owner_name ∷ container ∷ [])
    → All NoZero (namespace' ∷ owner_kind' ∷ owner_name' ∷ container' ∷ [])
    → signature_key namespace owner_kind owner_name container ft
      ≡ signature_key namespace' owner_kind' owner_name' container' ft'
    → (namespace ≡ namespace')
      × (owner_kind ≡ owner_kind')
      × (owner_name ≡ owner_name')
      × (container ≡ container')
      × (ft ≡ ft')
unfolding signature_key join
signature_key_injective ns k n c ft ns' k' n' c' ft' (h0, (h1, (h2, (h3, _))))
      (g0, (g1, (g2, (g3, _)))) e =
    let s0 =
      split_unique ns ns' {x = (k ++ 0 ∷ (n ++ 0 ∷ (c ++ 0 ∷ (failure_text ft))))}
        {y = (k' ++ 0 ∷ (n' ++ 0 ∷ (c' ++ 0 ∷ (failure_text ft'))))} h0 g0 e in
    let s1 =
      split_unique k k' {x = (n ++ 0 ∷ (c ++ 0 ∷ (failure_text ft)))}
        {y = (n' ++ 0 ∷ (c' ++ 0 ∷ (failure_text ft')))} h1 g1 s0.1 in
    let s2 =
      split_unique n n' {x = (c ++ 0 ∷ (failure_text ft))} {y = (c' ++ 0 ∷ (failure_text ft'))} h2
        g2 s1.1 in
    let s3 = split_unique c c' {x = (failure_text ft)} {y = (failure_text ft')} h3 g3 s2.1 in
    (s0.0, s1.0, s2.0, s3.0, failure_text_injective ft ft' s3.1)
