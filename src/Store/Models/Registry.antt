-- ===== src/Store/Models/Registry.antt =====
-- internal/store/model_registry_snapshots.go over its table, and internal/modelregistry/hook.go, which
-- mirrors the SDK's registry of models there. The encoding of models, the validity of JSON and what
-- PostgreSQL holds for a json array are parameters; `up` tells whether a statement is answered.
use cliproxy_new.Base.{
  ℕ, zero, suc, Bool, ◌&&◌, ◌||◌, not, Option, none, some, List, [], ◌∷◌, is_empty, filter, length,
  list_eq, nat_eq, ◌==◌, if◌then◌else◌, GoString, Result, ok, err,
}
use cliproxy_new.Store.{StoreError, invalid_input, not_found, other, Done}

pub record ModelRegistrySnapshot : Type 0 where
  pub provider : GoString
  pub client_id : GoString
  pub models : GoString
  pub updated_at : ℕ

abbrev pub Snapshots : Type 0
Snapshots = List ModelRegistrySnapshot

pub record Json : Type 0 where
  pub valid : GoString → Bool
  pub array : GoString → Option GoString

unfoldable pub is_of : GoString → GoString → ModelRegistrySnapshot → Bool
is_of provider client_id s = s.provider == provider && s.client_id == client_id

unfoldable pub is_not_of : GoString → GoString → ModelRegistrySnapshot → Bool
is_not_of provider client_id s = not (s.provider == provider && s.client_id == client_id)

-- `UpsertModelRegistrySnapshot`
pub upsert_snapshot : ModelRegistrySnapshot → Snapshots → Snapshots
upsert_snapshot s [] = s ∷ []
upsert_snapshot s (r ∷ rows) =
    if r.provider == s.provider && r.client_id == s.client_id
    then s ∷ rows
    else r ∷ upsert_snapshot s rows

-- The CHECK constraint: an array.
checked : GoString → GoString → Option GoString → ℕ → Snapshots → Result StoreError Done × Snapshots
unfolding upsert_snapshot
checked provider client_id none now rows = (err other, rows)
checked provider client_id (some models) now rows = (
  ok tt,
  upsert_snapshot
      (record { provider = provider; client_id = client_id; models = models; updated_at = now })
      rows,
)

unfoldable pub replace :
    Json
    → Bool
    → GoString
    → GoString
    → GoString
    → ℕ
    → Snapshots
    → Result StoreError Done × Snapshots
unfolding checked
replace json up provider client_id models now rows =
    if is_empty provider || is_empty client_id || not (json.valid models)
    then (err invalid_input, rows)
    else if up
    then checked provider client_id (json.array models) now rows
    else (err other, rows)

-- `List`, in the order of the table.
unfoldable pub list : Bool → Snapshots → Result StoreError Snapshots
list up rows = if up then ok rows else err other

removed : ℕ → GoString → GoString → Snapshots → Result StoreError Done × Snapshots
removed zero provider client_id rows = (err not_found, rows)
removed (suc n) provider client_id rows = (ok tt, filter (is_not_of provider client_id) rows)

unfoldable pub delete : Bool → GoString → GoString → Snapshots → Result StoreError Done × Snapshots
unfolding removed
delete up provider client_id rows =
    if is_empty provider || is_empty client_id
    then (err invalid_input, rows)
    else if up
    then removed (length (filter (is_of provider client_id) rows)) provider client_id rows
    else (err other, rows)

-- The hook. What it does not store it logs; `snapshot` is what the models are encoded to, if they
-- are.
stored : Json → Bool → GoString → GoString → Option GoString → ℕ → Snapshots → Snapshots
stored json up provider client_id none now rows = rows
stored json up provider client_id (some snapshot) now rows =
    (replace json up provider client_id snapshot now rows).1

unfoldable pub valid_identity : GoString → GoString → Bool
valid_identity provider client_id = not (is_empty provider) && not (is_empty client_id)

unfoldable pub on_models_registered :
    Json → Bool → Bool → GoString → GoString → Option GoString → ℕ → Snapshots → Snapshots
unfolding stored
on_models_registered json has_store up provider client_id snapshot now rows =
    if not (valid_identity provider client_id) || not has_store
    then rows
    else stored json up provider client_id snapshot now rows

unfoldable pub on_models_unregistered : Bool → Bool → GoString → GoString → Snapshots → Snapshots
on_models_unregistered has_store up provider client_id rows =
    if not (valid_identity provider client_id) || not has_store
    then rows
    else (delete up provider client_id rows).1
