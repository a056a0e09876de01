-- ===== src/Evidence/Reads/References.antt =====
-- `configReferences` of internal/evidence/collector.go.
use kube_cure.Prelude.{
  Bool, true, false, ◌||◌, Option, none, some, List, [], ◌∷◌, ◌++◌, any, map, if◌then◌else◌,
}
use kube_cure.Text.{Text, codes, text_eq, is_empty}
use kube_cure.Json.{Json, string, boolean, object}
use kube_cure.Json.Print.{fields_of, slice_of, strings, text_lt}
use kube_cure.Cluster.{Container, EnvFromSource, EnvVar, EnvVarSource, Volume, PodSpec, StringMap}
use kube_cure.Evidence.Collect.{Target, Gathered, unreadable}
use kube_cure.Evidence.Source.{Source, Fetched, got, refused}
use kube_cure.Evidence.Reads.Summarise.{summarise, to_json}

pub data RefKind : Type 0 where
  config_map secret : RefKind

unfoldable pub kind_name : RefKind → Text
kind_name config_map = codes "ConfigMap"
kind_name secret = codes "Secret"

pub record Reference : Type 0 where
  pub kind : RefKind
  pub name : Text
  pub exists : Bool
  pub keys : List Text
  pub message : Text

-- `seen` holds the texts "kind/name".
pub record Recorded : Type 0 where
  pub seen : List Text
  pub refs : List Reference

unfoldable pub insert_text : Text → List Text → List Text
insert_text s [] = s ∷ []
insert_text s (t ∷ rest) = if text_lt t s then t ∷ insert_text s rest else s ∷ t ∷ rest

-- sort.Strings
unfoldable pub sort_texts : List Text → List Text
unfolding insert_text
sort_texts [] = []
sort_texts (s ∷ rest) = insert_text s (sort_texts rest)

-- The loop over the entries that appends each key.
unfoldable pub keys_of : StringMap → List Text
keys_of [] = []
keys_of ((key, value) ∷ rest) = key ∷ keys_of rest

unfoldable pub reference_of : RefKind → Text → Fetched StringMap → Reference
unfolding keys_of sort_texts
reference_of kind name (got data_map) = record {
  kind = kind;
  name = name;
  exists = true;
  keys = sort_texts (keys_of data_map);
  message = [];
}
reference_of kind name (refused e) = record {
  kind = kind;
  name = name;
  exists = false;
  keys = [];
  message = summarise e;
}

unfoldable pub read_object : Source → Text → RefKind → Text → Fetched StringMap
read_object source ns config_map name = source.get_config_map ns name
read_object source ns secret name = source.get_secret ns name

unfoldable pub reference_id : RefKind → Text → Text
reference_id kind name = kind_name kind ++ (codes "/" ++ name)

unfoldable pub record_reference : Source → Text → Recorded → RefKind → Text → Recorded
unfolding reference_of read_object
record_reference source ns state kind name =
    let id = reference_id kind name in
    if is_empty name || any (λ s. text_eq s id) state.seen then state else record {
      seen = id ∷ state.seen;
      refs = state.refs ++ reference_of kind name (read_object source ns kind name) ∷ [];
    }

abbrev pub Named : Type 0
Named = List (RefKind × Text)

unfoldable pub named : RefKind → Option Text → Named
named kind none = []
named kind (some name) = (kind, name) ∷ []

unfoldable pub env_from_names : List EnvFromSource → Named
unfolding named
env_from_names [] = []
env_from_names (source ∷ rest) =
    named config_map source.config_map_ref
    ++ (named secret source.secret_ref ++ env_from_names rest)

unfoldable pub value_names : Option EnvVarSource → Named
unfolding named
value_names none = []
value_names (some source) =
    named config_map source.config_map_key_ref ++ named secret source.secret_key_ref

unfoldable pub env_names : List EnvVar → Named
unfolding value_names
env_names [] = []
env_names (env ∷ rest) = value_names env.value_from ++ env_names rest

unfoldable pub container_names : List Container → Named
unfolding env_from_names env_names
container_names [] = []
container_names (c ∷ rest) = env_from_names c.env_from ++ (env_names c.env ++ container_names rest)

unfoldable pub volume_names : List Volume → Named
unfolding named
volume_names [] = []
volume_names (v ∷ rest) =
    named config_map v.config_map ++ (named secret v.secret ++ volume_names rest)

-- What `record` is called with, in order.
unfoldable pub names_in : PodSpec → Named
unfolding container_names volume_names
names_in spec = container_names spec.containers ++ volume_names spec.volumes

unfoldable pub record_all : Source → Text → Recorded → Named → Recorded
unfolding record_reference
record_all source ns state [] = state
record_all source ns state ((kind, name) ∷ rest) =
    record_all source ns (record_reference source ns state kind name) rest

nonempty_keys : List Text → List (Text × Json)
nonempty_keys [] = []
nonempty_keys (k ∷ rest) = (codes "keys", strings (k ∷ rest)) ∷ []

nonempty_message : Text → List (Text × Json)
nonempty_message [] = []
nonempty_message (c ∷ rest) = (codes "message", string (c ∷ rest)) ∷ []

unfoldable pub reference_json : Reference → Json
unfolding nonempty_keys nonempty_message
reference_json ref = object (
    fields_of (
      (codes "kind", string (kind_name ref.kind))
      ∷ (codes "name", string ref.name)
      ∷ (codes "exists", boolean ref.exists)
      ∷ (nonempty_keys ref.keys ++ nonempty_message ref.message)))

unfoldable pub references_text : List Reference → Gathered
references_text [] = unreadable (codes "the pod references no ConfigMaps or Secrets")
references_text (ref ∷ rest) = to_json (slice_of (map reference_json (ref ∷ rest)))

abbrev pub none_recorded : Recorded
none_recorded = record { seen = []; refs = [] }

unfoldable pub references : Source → Target → List Reference
unfolding names_in record_all
references source target =
    (record_all source target.pod.namespace none_recorded (names_in target.pod.spec)).refs

unfoldable pub config_references : Source → Target → Gathered
unfolding references references_text
config_references source target = references_text (references source target)
