-- ===== src/Controller/Store.antt =====
-- What the API server does with a Diagnosis: `Create` refuses a name that is taken, and
-- `Status().Update` writes the status of the version that the sent object was read at, or refuses it
-- as a conflict. A fault is any error with which a write fails and changes nothing.
use kube_cure.Prelude.{
  ℕ, suc, Bool, true, false, ◌&&◌, ◌==◌, Option, none, some, List, [], ◌∷◌, ◌++◌, if◌then◌else◌,
}
use kube_cure.Text.{Text, text_eq}
use kube_cure.Api.Diagnosis.{Diagnosis}
use kube_cure.Cluster.{ApiError, not_found, conflict, already_exists}

-- What a reconcile returns to its queue: done, done with a delay, or an error to be retried.
pub data Reconciled : Type 0 where
  done : Reconciled
  requeue_after : ℕ → Reconciled
  retry : ApiError → Reconciled

unfoldable pub same_object : Text → Text → Diagnosis → Bool
same_object namespace name d = text_eq d.namespace namespace && text_eq d.name name

unfoldable pub exists : Text → Text → List Diagnosis → Bool
exists namespace name [] = false
exists namespace name (d ∷ ds) =
    if same_object namespace name d then true else exists namespace name ds

-- Whether the write was refused, and what is stored after it.
unfoldable pub create :
    Option ApiError → Diagnosis → List Diagnosis → Option ApiError × List Diagnosis
create (some fault) d store = (some fault, store)
create none d store =
    if exists d.namespace d.name store
    then (some already_exists, store)
    else (none, store ++ d ∷ [])

unfoldable pub update_status :
    Option ApiError → Diagnosis → List Diagnosis → Option ApiError × List Diagnosis
update_status (some fault) sent store = (some fault, store)
update_status none sent [] = (some not_found, [])
update_status none sent (d ∷ ds) =
    let rest = update_status none sent ds in
    if same_object sent.namespace sent.name d
    then (if d.resource_version == sent.resource_version
        then (
          none,
          record d { status = sent.status; resource_version = suc d.resource_version } ∷ ds,
        )
        else (some conflict, d ∷ ds))
    else (rest.0, d ∷ rest.1)
