-- ===== src/Store/Models.antt =====
-- internal/store/model_overrides.go and admin_models.go over the table model_overrides and the
-- statements of db/queries/model_overrides.sql. The identity of a new row, and which statements are
-- answered, are arguments; what PostgreSQL gives back for a json text, the order of its texts and
-- the encoding of the audit's details are parameters. An empty config stands for NULL.
pub mod Registry
pub mod Rules
pub mod Statements
pub mod Changes
pub mod Refinement
use cliproxy_new.Base.{
  ℕ, zero, suc, Bool, true, false, ◌&&◌, ◌||◌, not, Option, List, [], ◌∷◌, ◌++◌, ℤ, is_positive,
  is_empty, filter, length, list_eq, nat_eq, ◌==◌, if◌then◌else◌, GoString, bytes, Result, ok, err,
}
use cliproxy_new.Store.{StoreError, invalid_input, not_found, other, Done, QueryError, failed}
use cliproxy_new.Store.OauthSessions.{AuditEntry}
use cliproxy_new.Store.Audited.{Transaction, Insert, in_transaction}
use cliproxy_new.Auth.Selector.{ModelOverride}

pub record UpsertModelOverrideParams : Type 0 where
  pub provider : GoString
  pub model_alias : GoString
  pub upstream_model : GoString
  pub enabled : Bool
  pub config : GoString

pub record ModelsDb : Type 0 where
  pub rows : List ModelOverride
  pub audit : List AuditEntry

pub record Postgres : Type 0 where
  pub valid_json : GoString → Bool
  pub jsonb : GoString → GoString
  pub less : GoString → GoString → Bool
  pub encode_details : GoString → GoString → GoString

unfoldable pub row_of : Postgres → ℤ → UpsertModelOverrideParams → ModelOverride
row_of pg id p = record {
  id = id;
  provider = p.provider;
  model_alias = p.model_alias;
  upstream_model = p.upstream_model;
  enabled = p.enabled;
  config = if is_empty p.config then [] else pg.jsonb p.config;
}

-- `UpsertModelOverride`: the rows, and the row that is returned.
pub upsert_row :
    Postgres
    → ℤ
    → UpsertModelOverrideParams
    → List ModelOverride
    → List ModelOverride × ModelOverride
upsert_row pg id p [] = (row_of pg id p ∷ [], row_of pg id p)
upsert_row pg id p (r ∷ rows) =
    let rest = upsert_row pg id p rows in
    if r.model_alias == p.model_alias
    then (row_of pg r.id p ∷ rows, row_of pg r.id p)
    else (r ∷ rest.0, rest.1)

-- `ListModelOverrides`: ordered by the alias.
pub insert_ordered :
    (GoString → GoString → Bool) → ModelOverride → List ModelOverride → List ModelOverride
insert_ordered less r [] = r ∷ []
insert_ordered less r (s ∷ rows) =
    if less s.model_alias r.model_alias then s ∷ insert_ordered less r rows else r ∷ s ∷ rows

unfoldable pub ordered : (GoString → GoString → Bool) → List ModelOverride → List ModelOverride
ordered less [] = []
ordered less (r ∷ rows) = insert_ordered less r (ordered less rows)

unfoldable pub is_named : GoString → ModelOverride → Bool
is_named alias r = r.model_alias == alias

pub is_not_named : GoString → ModelOverride → Bool
is_not_named alias r = not (r.model_alias == alias)

-- The insert of the audit log.
unfoldable pub append_entry : Bool → Insert ModelsDb
append_entry true e db = (ok tt, record db { audit = db.audit ++ e ∷ [] })
append_entry false e db = (err failed, db)

module _ (pg : Postgres) where
  unfoldable pub valid_params : UpsertModelOverrideParams → Bool
  valid_params p =
      not (is_empty p.provider)
      && not (is_empty p.model_alias)
      && not (is_empty p.upstream_model)
      && (is_empty p.config || pg.valid_json p.config)

  unfoldable pub upsert :
      Bool → ℤ → UpsertModelOverrideParams → ModelsDb → Result StoreError ModelOverride × ModelsDb
  upsert up id p db =
      if not (valid_params p)
      then (err invalid_input, db)
      else if up
      then (let (rows, row) = upsert_row pg id p db.rows in (ok row, record db { rows = rows }))
      else (err other, db)

  unfoldable pub list : Bool → ModelsDb → Result StoreError (List ModelOverride)
  list up db = if up then ok (ordered pg.less db.rows) else err other

  deleted : ℕ → GoString → ModelsDb → Result StoreError Done × ModelsDb
  deleted zero alias db = (err not_found, db)
  deleted (suc n) alias db = (ok tt, record db { rows = filter (is_not_named alias) db.rows })

  unfoldable pub delete : Bool → GoString → ModelsDb → Result StoreError Done × ModelsDb
  unfolding deleted
  delete up alias db =
      if is_empty alias
      then (err invalid_input, db)
      else if up
      then deleted (length (filter (is_named alias) db.rows)) alias db
      else (err other, db)

  unfoldable pub upsert_entry : ℤ → UpsertModelOverrideParams → Option GoString → AuditEntry
  upsert_entry actor p ip = record {
    actor_user_id = actor;
    action = bytes "model_override.upserted";
    target_type = bytes "model_override";
    target_id = p.model_alias;
    details = pg.encode_details p.provider p.upstream_model;
    actor_ip = ip;
  }

  unfoldable pub delete_entry : ℤ → GoString → Option GoString → AuditEntry
  delete_entry actor alias ip = record {
    actor_user_id = actor;
    action = bytes "model_override.deleted";
    target_type = bytes "model_override";
    target_id = alias;
    details = [];
    actor_ip = ip;
  }

  -- `up` and `audits`: the statement and the insert of the audit log are answered.
  pub upsert_with_audit :
      Transaction
      → Bool
      → Bool
      → ℤ
      → ℤ
      → UpsertModelOverrideParams
      → Option GoString
      → ModelsDb
      → Result StoreError ModelOverride × ModelsDb
  upsert_with_audit tx up audits id actor p ip db =
      if not (is_positive actor) || not (valid_params p)
      then (err invalid_input, db)
      else in_transaction pg.valid_json (append_entry audits) tx (upsert_entry actor p ip)
          (upsert up id p) db

  pub delete_with_audit :
      Transaction
      → Bool
      → Bool
      → ℤ
      → GoString
      → Option GoString
      → ModelsDb
      → Result StoreError Done × ModelsDb
  delete_with_audit tx up audits actor alias ip db =
      if not (is_positive actor) || is_empty alias
      then (err invalid_input, db)
      else in_transaction pg.valid_json (append_entry audits) tx (delete_entry actor alias ip)
          (delete up alias) db
