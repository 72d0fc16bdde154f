-- ===== src/Http/ModelAdmin.antt =====
-- internal/httpapi/admin_models.go: the administration of model overrides. The store is an interface
-- over its states; gin's binding of the body is an argument.
use cliproxy_new.Base.{Bool, Option, none, some, List, ℤ, GoString, bytes, Result, ok, err}
use cliproxy_new.Store.{
  StoreError, not_found, invalid_credential, invalid_input, corrupt_credential, other, Done,
}
use cliproxy_new.Auth.Selector.{ModelOverride}
use cliproxy_new.Store.Models.{UpsertModelOverrideParams}
use cliproxy_new.Http.Management.{Refusal, Reply, refuse, reply, Context, current_user_id}

pub record AdminModelStore (S : Type 0) : Type 0 where
  pub list : S → Result StoreError (List ModelOverride)
  pub upsert_with_audit :
      ℤ → UpsertModelOverrideParams → Option GoString → S → Result StoreError ModelOverride × S
  pub delete_with_audit : ℤ → GoString → Option GoString → S → Result StoreError Done × S

pub record UpsertModelRequest : Type 0 where
  pub provider : GoString
  pub upstream_model : GoString
  pub enabled : Bool
  pub config : GoString

-- The response has the fields of the override.
unfoldable pub upserted :
    {S : Type 0} → Result StoreError ModelOverride × S → Result Refusal (Reply ModelOverride) × S
unfolding reply refuse
upserted (err e, s) = (refuse 400 (bytes "invalid model override"), s)
upserted (ok v, s) = (reply 200 v, s)

unfoldable pub deleted : {S : Type 0} → Result StoreError Done × S → Result Refusal (Reply Done) × S
unfolding reply refuse
deleted (ok u, s) = (reply 204 tt, s)
deleted (err not_found, s) = (refuse 404 (bytes "model override not found"), s)
deleted (err invalid_credential, s) = (refuse 400 (bytes "invalid model override"), s)
deleted (err invalid_input, s) = (refuse 400 (bytes "invalid model override"), s)
deleted (err corrupt_credential, s) = (refuse 400 (bytes "invalid model override"), s)
deleted (err other, s) = (refuse 400 (bytes "invalid model override"), s)

listed : Result StoreError (List ModelOverride) → Result Refusal (Reply (List ModelOverride))
unfolding reply refuse
listed (err e) = refuse 500 (bytes "list model overrides failed")
listed (ok rows) = reply 200 rows

module _ {S : Type 0} (store : AdminModelStore S) where
  unfoldable pub list : S → Result Refusal (Reply (List ModelOverride))
  unfolding listed
  list s = listed (store.list s)

  upsert_as :
      Result Refusal ℤ
      → GoString
      → Option UpsertModelRequest
      → Option GoString
      → S
      → Result Refusal (Reply ModelOverride) × S
  unfolding upserted refuse
  upsert_as (err refusal) alias body ip s = (err refusal, s)
  upsert_as (ok actor) alias none ip s = (refuse 400 (bytes "invalid model override"), s)
  upsert_as (ok actor) alias (some r) ip s = upserted (
      store.upsert_with_audit actor
        (record {
          provider = r.provider;
          model_alias = alias;
          upstream_model = r.upstream_model;
          enabled = r.enabled;
          config = r.config;
        })
        ip s)

  unfoldable pub upsert :
      Context
      → GoString
      → Option UpsertModelRequest
      → Option GoString
      → S
      → Result Refusal (Reply ModelOverride) × S
  unfolding upsert_as
  upsert c alias body ip s = upsert_as (current_user_id c) alias body ip s

  delete_as : Result Refusal ℤ → GoString → Option GoString → S → Result Refusal (Reply Done) × S
  unfolding deleted
  delete_as (err refusal) alias ip s = (err refusal, s)
  delete_as (ok actor) alias ip s = deleted (store.delete_with_audit actor alias ip s)

  unfoldable pub delete : Context → GoString → Option GoString → S → Result Refusal (Reply Done) × S
  unfolding delete_as
  delete c alias ip s = delete_as (current_user_id c) alias ip s
