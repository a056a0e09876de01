-- ===== src/Evidence/Mentioned.antt =====
-- internal/evidence/collector.go: which ConfigMaps and Secrets the walk of `configReferences` meets,
-- said of the fields of the pod.
use kube_cure.Prelude.{
  true, ◌||◌, ◌≡◌, ◌↔◌, ◌⊎◌, inl, inr, refl, ap, subst, append_assoc, Option, none, some, List, [],
  ◌∷◌, ◌++◌, AnyOf, Bool-cases, arith,
}
use kube_cure.Text.{Text, text_eq_iff}
use kube_cure.Cluster.{Container, EnvFromSource, EnvVar, EnvVarSource, Volume, PodSpec}
use kube_cure.Evidence.Reads.References.{
  RefKind, config_map, secret, Named, named, env_from_names, value_names, env_names,
  container_names, volume_names, names_in,
}
use kube_cure.Evidence.Reported.{same_kind, is_named}

-- Of the names of a ConfigMap and of a Secret, that of the kind.
abbrev pub Picked : RefKind → Text → Option Text → Option Text → Type 0
Picked config_map name of_map of_secret = of_map ≡ some name
Picked secret name of_map of_secret = of_secret ≡ some name

abbrev pub BySource : RefKind → Text → EnvFromSource → Type 0
BySource kind name s = Picked kind name s.config_map_ref s.secret_ref

abbrev pub ByVariable : RefKind → Text → EnvVar → Type 0
ByVariable kind name env =
    (s : EnvVarSource) × (env.value_from ≡ some s)
    × Picked kind name s.config_map_key_ref s.secret_key_ref

abbrev pub ByVolume : RefKind → Text → Volume → Type 0
ByVolume kind name v = Picked kind name v.config_map v.secret

abbrev pub ByContainer : RefKind → Text → Container → Type 0
ByContainer kind name c = AnyOf (BySource kind name) c.env_from ⊎ AnyOf (ByVariable kind name) c.env

-- A container's environment, as a whole or in one variable, or a volume takes the object.
abbrev pub Mentioned : RefKind → Text → PodSpec → Type 0
Mentioned kind name spec =
    AnyOf (ByContainer kind name) spec.containers ⊎ AnyOf (ByVolume kind name) spec.volumes

named_iff :
    (kind k : RefKind) (name : Text) (o : Option Text)
    → (is_named kind name (named k o) ≡ true) ↔ ((same_kind k kind ≡ true) × (o ≡ some name))
unfolding is_named named
named_iff kind k name none = (λ h. absurd (ground arith), λ h. absurd (ground arith))
named_iff kind k name (some n) =
    let same = text_eq_iff n name in
    (λ h. (ground arith, ap some (same.0 (ground arith))), λ (a, b). ground (arith, same.1))

pair_iff :
    (kind : RefKind) (name : Text) (m s : Option Text)
    → ((is_named kind name (named config_map m) ≡ true)
        ⊎ (is_named kind name (named secret s) ≡ true))
      ↔ Picked kind name m s
unfolding same_kind
pair_iff config_map name m s = (
  λ h. elim h [
    | inl x ↦ ((named_iff config_map config_map name m).0 x).1
    | inr y ↦ absurd (ground (arith, (named_iff config_map secret name s).0 y))
  ],
  λ e. inl ((named_iff config_map config_map name m).1 (refl, e)),
)
pair_iff secret name m s = (
  λ h. elim h [
    | inl x ↦ absurd (ground (arith, (named_iff secret config_map name m).0 x))
    | inr y ↦ ((named_iff secret secret name s).0 y).1
  ],
  λ e. inr ((named_iff secret secret name s).1 (refl, e)),
)

module _ (kind : RefKind) (name : Text) where
  abbrev Hit : Named → Type 0
  Hit names = is_named kind name names ≡ true

  is_named-append :
      (xs ys : Named)
      → is_named kind name (xs ++ ys) ≡ (is_named kind name xs || is_named kind name ys)
  unfolding is_named
  is_named-append [] ys = refl
  is_named-append ((k, n) ∷ xs) ys = ground (arith, is_named-append xs ys)

  Hit-append :
      {P Q : Type 0} (xs ys : Named) → (Hit xs ↔ P) → (Hit ys ↔ Q) → Hit (xs ++ ys) ↔ (P ⊎ Q)
  Hit-append xs ys p q =
      let both = is_named-append xs ys in
      (
        λ h. elim (Bool-cases (is_named kind name xs)) [
          | inl e ↦ inl (p.0 e)
          | inr e ↦ inr (q.0 (ground arith))
        ],
        λ s. elim s [ inl x ↦ ground (arith, p.1 x) | inr y ↦ ground (arith, q.1 y) ],
      )

  none-Hit : Hit [] ↔ ⊥
  unfolding is_named
  none-Hit = (λ h. ground arith, λ e. absurd e)

  Hit-pair : (m s : Option Text) → Hit (named config_map m ++ named secret s) ↔ Picked kind name m s
  Hit-pair m s =
      let pair = pair_iff kind name m s in
      let split =
        Hit-append (named config_map m) (named secret s) (λ h. h, λ h. h) (λ h. h, λ h. h) in
      (λ h. pair.0 (split.0 h), λ p. split.1 (pair.1 p))

  Hit-pair_append :
      {Q : Type 0} (m s : Option Text) (rest : Named)
      → (Hit rest ↔ Q)
      → Hit (named config_map m ++ (named secret s ++ rest)) ↔ (Picked kind name m s ⊎ Q)
  Hit-pair_append {Q = Q} m s rest q =
      subst (λ names. Hit names ↔ (Picked kind name m s ⊎ Q))
        (append_assoc (named config_map m) (named secret s) rest)
        (Hit-append (named config_map m ++ named secret s) rest (Hit-pair m s) q)

  env_from_names-Hit :
      (es : List EnvFromSource) → Hit (env_from_names es) ↔ AnyOf (BySource kind name) es
  unfolding env_from_names
  env_from_names-Hit [] = none-Hit
  env_from_names-Hit (e ∷ es) =
      Hit-pair_append e.config_map_ref e.secret_ref (env_from_names es) (env_from_names-Hit es)

  volume_names-Hit : (vs : List Volume) → Hit (volume_names vs) ↔ AnyOf (ByVolume kind name) vs
  unfolding volume_names
  volume_names-Hit [] = none-Hit
  volume_names-Hit (v ∷ vs) =
      Hit-pair_append v.config_map v.secret (volume_names vs) (volume_names-Hit vs)

  value_names-Hit :
      (o : Option EnvVarSource)
      → Hit (value_names o) ↔ (
          (s : EnvVarSource) × (o ≡ some s)
          × Picked kind name s.config_map_key_ref s.secret_key_ref)
  unfolding value_names
  value_names-Hit none = (λ h. absurd (none-Hit.0 h), λ (s, e, p). absurd (ground arith))
  value_names-Hit (some s) =
      let pair = Hit-pair s.config_map_key_ref s.secret_key_ref in
      (λ h. (s, refl, pair.0 h), λ (t, e, p). let same : t ≡ s = cc in pair.1 (rw same at p))

  env_names-Hit : (vs : List EnvVar) → Hit (env_names vs) ↔ AnyOf (ByVariable kind name) vs
  unfolding env_names
  env_names-Hit [] = none-Hit
  env_names-Hit (v ∷ vs) =
      Hit-append (value_names v.value_from) (env_names vs) (value_names-Hit v.value_from)
        (env_names-Hit vs)

  container_names-Hit :
      (cs : List Container) → Hit (container_names cs) ↔ AnyOf (ByContainer kind name) cs
  unfolding container_names
  container_names-Hit [] = none-Hit
  container_names-Hit (c ∷ cs) =
      subst (λ names. Hit names ↔ AnyOf (ByContainer kind name) (c ∷ cs))
        (append_assoc (env_from_names c.env_from) (env_names c.env) (container_names cs))
        (Hit-append (env_from_names c.env_from ++ env_names c.env) (container_names cs)
          (Hit-append (env_from_names c.env_from) (env_names c.env) (env_from_names-Hit c.env_from)
            (env_names-Hit c.env))
          (container_names-Hit cs))

  -- The walk meets an object exactly if the pod mentions it.
  pub names_in-Mentioned :
      (spec : PodSpec) → (is_named kind name (names_in spec) ≡ true) ↔ Mentioned kind name spec
  unfolding names_in
  names_in-Mentioned spec =
      Hit-append (container_names spec.containers) (volume_names spec.volumes)
        (container_names-Hit spec.containers) (volume_names-Hit spec.volumes)
