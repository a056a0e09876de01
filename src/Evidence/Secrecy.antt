-- ===== src/Evidence/Secrecy.antt =====
-- internal/evidence/collector.go: values of ConfigMaps and Secrets.
use kube_cure.Prelude.{◌≡◌, refl, ap, ◌∙◌, fun_ext, List, [], ◌∷◌}
use kube_cure.Text.{Text}
use kube_cure.Cluster.{StringMap}
use kube_cure.Evidence.Redact.{Redactor}
use kube_cure.Evidence.Collect.{Target, collect}
use kube_cure.Evidence.Source.{Source, Fetched, got, refused}
use kube_cure.Evidence.Reads.{readers_of}
use kube_cure.Evidence.Reads.References.{
  RefKind, config_map, secret, Recorded, Named, keys_of, reference_of, read_object,
  record_reference, record_all, references, config_references, references_text, none_recorded,
  names_in,
}

-- The same keys with other values.
abbrev pub with_values : (Text → Text → Text) → StringMap → StringMap
with_values f [] = []
with_values f ((key, v) ∷ rest) = (key, f key v) ∷ with_values f rest

abbrev pub fetched_values : (Text → Text → Text) → Fetched StringMap → Fetched StringMap
fetched_values f (got data_map) = got (with_values f data_map)
fetched_values f (refused e) = refused e

-- An API server that answers with other values in its ConfigMaps and Secrets.
abbrev pub change_values : (Text → Text → Text) → Source → Source
change_values f source = record source {
  get_config_map = λ ns name. fetched_values f (source.get_config_map ns name);
  get_secret = λ ns name. fetched_values f (source.get_secret ns name);
}

keys_of-with_values :
    (f : Text → Text → Text) (m : StringMap) → keys_of (with_values f m) ≡ keys_of m
unfolding keys_of
keys_of-with_values f [] = refl
keys_of-with_values f ((key, v) ∷ rest) = ap (λ keys. key ∷ keys) (keys_of-with_values f rest)

reference_of-values :
    (f : Text → Text → Text) (kind : RefKind) (name : Text) (a : Fetched StringMap)
    → reference_of kind name (fetched_values f a) ≡ reference_of kind name a
unfolding reference_of
reference_of-values f kind name (got m) = rw (keys_of-with_values f m) refl
reference_of-values f kind name (refused e) = refl

module _ (f : Text → Text → Text) (source : Source) (ns : Text) where
  read-values :
      (kind : RefKind) (name : Text)
      → reference_of kind name (read_object (change_values f source) ns kind name)
        ≡ reference_of kind name (read_object source ns kind name)
  unfolding read_object
  read-values config_map name =
      reference_of-values f config_map name (source.get_config_map ns name)
  read-values secret name = reference_of-values f secret name (source.get_secret ns name)

  record-values :
      (state : Recorded) (kind : RefKind) (name : Text)
      → record_reference (change_values f source) ns state kind name
        ≡ record_reference source ns state kind name
  unfolding record_reference
  record-values state kind name = rw (read-values kind name) refl

  record_all-values :
      (state : Recorded) (names : Named)
      → record_all (change_values f source) ns state names ≡ record_all source ns state names
  unfolding record_all
  record_all-values state [] = refl
  record_all-values state ((kind, name) ∷ rest) =
      record_all-values (record_reference (change_values f source) ns state kind name) rest
      ∙ ap (λ s. record_all source ns s rest) (record-values state kind name)

config_references-values :
    (f : Text → Text → Text) (source : Source) (target : Target)
    → config_references (change_values f source) target ≡ config_references source target
unfolding config_references references
config_references-values f source target =
    ap (λ state. references_text state.refs)
      (record_all-values f source target.pod.namespace none_recorded (names_in target.pod.spec))

readers_of-values :
    (f : Text → Text → Text) (source : Source)
    → readers_of (change_values f source) ≡ readers_of source
unfolding readers_of
readers_of-values f source =
    ap (λ read. record (readers_of source) { config_references = read })
      (fun_ext (config_references-values f source))

-- The value of no key of a ConfigMap or Secret ever reaches the evidence: whatever other values the
-- API server answers with under the same keys, the collection is the same.
pub collect_reads_no_values :
    (redactors : List Redactor) (source : Source) (target : Target) (f : Text → Text → Text)
    → collect redactors (readers_of (change_values f source)) target
      ≡ collect redactors (readers_of source) target
collect_reads_no_values redactors source target f =
    ap (λ readers. collect redactors readers target) (readers_of-values f source)
