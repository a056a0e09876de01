-- ===== src/Evidence/Serving.antt =====
-- internal/evidence/collector.go: what `serviceEndpoints` counts, and which services it reports.
use kube_cure.Prelude.{
  ◌+◌, Bool, ◌&&◌, ◌||◌, ◌≡◌, refl, sym, ◌∙◌, List, [], ◌∷◌, ◌++◌, any, length, keep_if, arith,
  Bool-cases, Option-cases, inl, inr, ap, some, true, ◌↔◌, Kept, keep_if-Kept, AnyOf, any_iff,
}
use kube_cure.Text.{Text, text_eq_iff}
use kube_cure.Evidence.Source.{Endpoint, EndpointSlice}
use kube_cure.Evidence.Reads.Endpoints.{
  Counts, no_endpoints, is_ready, targets, count_endpoint, count_endpoints, count_slices,
}

-- The endpoints of all slices.
unfoldable pub endpoints_in : List EndpointSlice → List Endpoint
endpoints_in [] = []
endpoints_in (s ∷ rest) = s.endpoints ++ endpoints_in rest

abbrev pub serves : Text → Endpoint → Bool
serves name ep = is_ready ep && targets name ep

-- What the loop has counted after more endpoints.
abbrev Advances : Text → List Endpoint → Counts → Counts → Type 0
Advances name eps old new =
    (new.ready ≡ old.ready + length (keep_if is_ready eps))
    × (new.ready + new.not_ready ≡ old.ready + old.not_ready + length eps)
    × (new.serving ≡ (old.serving || any (serves name) eps))

count_endpoint-Advances :
    (name : Text) (ep : Endpoint) (counts : Counts)
    → Advances name (ep ∷ []) counts (count_endpoint name ep counts)
unfolding count_endpoint
count_endpoint-Advances name ep counts = elim (Bool-cases (is_ready ep)) [
  | inl r ↦ elim (Bool-cases (targets name ep)) [ inl t ↦ ground arith | inr t ↦ ground arith ]
  | inr r ↦ ground arith
]

count_endpoints-Advances :
    (name : Text) (eps : List Endpoint) (counts : Counts)
    → Advances name eps counts (count_endpoints name eps counts)
unfolding count_endpoints
count_endpoints-Advances name [] counts = ground arith
count_endpoints-Advances name (ep ∷ rest) counts = ground (
  arith,
  count_endpoint-Advances name ep counts,
  count_endpoints-Advances name rest (count_endpoint name ep counts),
)

count_endpoints-append :
    (name : Text) (xs ys : List Endpoint) (counts : Counts)
    → count_endpoints name (xs ++ ys) counts
      ≡ count_endpoints name ys (count_endpoints name xs counts)
unfolding count_endpoints
count_endpoints-append name [] ys counts = refl
count_endpoints-append name (x ∷ xs) ys counts =
    count_endpoints-append name xs ys (count_endpoint name x counts)

count_slices-endpoints :
    (name : Text) (slices : List EndpointSlice) (counts : Counts)
    → count_slices name slices counts ≡ count_endpoints name (endpoints_in slices) counts
unfolding count_slices endpoints_in count_endpoints
count_slices-endpoints name [] counts = refl
count_slices-endpoints name (s ∷ rest) counts =
    count_slices-endpoints name rest (count_endpoints name s.endpoints counts)
    ∙ sym (count_endpoints-append name s.endpoints (endpoints_in rest) counts)

abbrev pub Ready : Endpoint → Type 0
Ready ep = ep.ready ≡ some true

-- A ready endpoint whose object is the pod of that name.
abbrev pub Serves : Text → Endpoint → Type 0
Serves name ep = Ready ep × (ep.target ≡ some name)

is_ready-Ready : (ep : Endpoint) → (is_ready ep ≡ true) ↔ Ready ep
unfolding is_ready
is_ready-Ready ep = elim (Option-cases ep.ready) [
  | inl e ↦ (λ h. ground arith, λ h. ground arith)
  | inr (b, e) ↦ (λ h. ground arith, λ h. ground arith)
]

targets_iff : (name : Text) (ep : Endpoint) → (targets name ep ≡ true) ↔ (ep.target ≡ some name)
unfolding targets
targets_iff name ep = elim (Option-cases ep.target) [
  | inl e ↦ (λ h. ground arith, λ h. ground arith)
  | inr (t, e) ↦
      let same = text_eq_iff t name in
      (λ h. e ∙ ap some (same.0 (ground arith)), λ h. ground (arith, same.1))
]

serves-Serves : (name : Text) (ep : Endpoint) → (serves name ep ≡ true) ↔ Serves name ep
serves-Serves name ep =
    let r = is_ready-Ready ep in
    let t = targets_iff name ep in
    (λ h. (r.0 (ground arith), t.0 (ground arith)), λ (h, k). ground (arith, r.1 h, t.1 k))

-- Over all slices of a service, the ready endpoints are counted, those whose Ready condition is given
-- and true; every endpoint is counted once, as ready or as not ready; and the pod is reported as
-- serving exactly if the object of a ready endpoint bears the pod's name.
pub count_slices_exact :
    (name : Text) (slices : List EndpointSlice)
    → let counts = count_slices name slices no_endpoints in
      ((ready : List Endpoint) × Kept Ready (endpoints_in slices) ready
        × (counts.ready ≡ length ready))
      × (counts.ready + counts.not_ready ≡ length (endpoints_in slices))
      × ((counts.serving ≡ true) ↔ AnyOf (Serves name) (endpoints_in slices))
count_slices_exact name slices =
    let eps = endpoints_in slices in
    let (r, n, s) = count_endpoints-Advances name eps no_endpoints in
    let e = count_slices-endpoints name slices no_endpoints in
    let found = any_iff (Serves name) (serves name) (serves-Serves name) eps in
    (
      (keep_if is_ready eps, keep_if-Kept Ready is_ready is_ready-Ready eps, ground arith),
      ground arith,
      (λ h. found.0 (ground arith), λ h. ground (arith, found.1 h)),
    )
