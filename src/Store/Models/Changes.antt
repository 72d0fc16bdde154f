-- ===== src/Store/Models/Changes.antt =====
-- The rows behind the audited changes of internal/store/admin_models.go.
use cliproxy_new.Base.{
  ℕ, zero, suc, ◌≡◌, refl, sym, ap, inl, inr, Bool, true, false, Bool-cases, ◌||◌, not, Option,
  filter, length, ℤ, is_positive, is_empty, list_eq, nat_eq, GoString, Result, ok,
}
use cliproxy_new.Store.{StoreError, Done}
use cliproxy_new.Store.OauthSessions.{AuditEntry}
use cliproxy_new.Store.Audited.{Transaction}
use cliproxy_new.Store.Audited.Atomicity.{Outcome, in_transaction-Outcome}
use cliproxy_new.Store.Models.{
  UpsertModelOverrideParams, ModelsDb, Postgres, upsert_row, is_named, is_not_named, append_entry,
  valid_params, upsert, deleted, delete, upsert_entry, delete_entry, upsert_with_audit,
  delete_with_audit,
}
use cliproxy_new.Auth.Selector.{ModelOverride}

pub append_entry-rows :
    (audits : Bool) (e : AuditEntry) (db after : ModelsDb)
    → append_entry audits e db ≡ (ok tt, after)
    → after.rows ≡ db.rows
unfolding append_entry
append_entry-rows true e db after h = sym (ap (λ o. o.1.rows) h)
append_entry-rows false e db after h = cc

module _ (pg : Postgres) where
  pub upsert-rows :
      (up : Bool) (id : ℤ) (p : UpsertModelOverrideParams) (db after : ModelsDb)
      (row : ModelOverride)
      → upsert pg up id p db ≡ (ok row, after)
      → after.rows ≡ (upsert_row pg id p db.rows).0
  unfolding upsert
  upsert-rows up id p db after row h = elim (Bool-cases (not (valid_params pg p))) [
    | inl bad ↦ cc (rw bad at h)
    | inr good ↦ elim (Bool-cases up) [
      | inl e ↦ sym (ap (λ o. o.1.rows) (rw e at (rw good at h)))
      | inr e ↦ cc (rw e at (rw good at h))
    ]
  ]

  deleted-rows :
      (n : ℕ) (alias : GoString) (db after : ModelsDb)
      → deleted pg n alias db ≡ (ok tt, after)
      → after.rows ≡ filter (is_not_named alias) db.rows
  unfolding deleted
  deleted-rows zero alias db after h = cc
  deleted-rows (suc n) alias db after h = sym (ap (λ o. o.1.rows) h)

  pub delete-rows :
      (up : Bool) (alias : GoString) (db after : ModelsDb)
      → delete pg up alias db ≡ (ok tt, after)
      → after.rows ≡ filter (is_not_named alias) db.rows
  unfolding delete
  delete-rows up alias db after h = elim (Bool-cases (is_empty alias)) [
    | inl bad ↦ cc (rw bad at h)
    | inr good ↦ elim (Bool-cases up) [
      | inl e ↦
          deleted-rows (length (filter (is_named alias) db.rows)) alias db after
            (rw e at (rw good at h))
      | inr e ↦ cc (rw e at (rw good at h))
    ]
  ]

  abbrev pub UpsertOutcome :
      Bool
      → Bool
      → ℤ
      → ℤ
      → UpsertModelOverrideParams
      → Option GoString
      → ModelsDb
      → Result StoreError ModelOverride × ModelsDb
      → Type 0
  UpsertOutcome up audits id actor p ip db =
      Outcome pg.valid_json (append_entry audits) (upsert_entry pg actor p ip) (upsert pg up id p)
        db

  abbrev pub DeleteOutcome :
      Bool
      → Bool
      → ℤ
      → GoString
      → Option GoString
      → ModelsDb
      → Result StoreError Done × ModelsDb
      → Type 0
  DeleteOutcome up audits actor alias ip db =
      Outcome pg.valid_json (append_entry audits) (delete_entry pg actor alias ip)
        (delete pg up alias) db

  pub upsert_with_audit-UpsertOutcome :
      (tx : Transaction) (up audits : Bool) (id actor : ℤ) (p : UpsertModelOverrideParams)
      (ip : Option GoString) (db : ModelsDb)
      → UpsertOutcome up audits id actor p ip db
          (upsert_with_audit pg tx up audits id actor p ip db)
  unfolding upsert_with_audit
  upsert_with_audit-UpsertOutcome tx up audits id actor p ip db =
      elim (Bool-cases (not (is_positive actor) || not (valid_params pg p))) [
        | inl bad ↦ rw bad refl
        | inr good ↦
            rw good (
              in_transaction-Outcome pg.valid_json (append_entry audits) _ (upsert pg up id p) db
                tx)
      ]

  pub delete_with_audit-DeleteOutcome :
      (tx : Transaction) (up audits : Bool) (actor : ℤ) (alias : GoString) (ip : Option GoString)
      (db : ModelsDb)
      → DeleteOutcome up audits actor alias ip db
          (delete_with_audit pg tx up audits actor alias ip db)
  unfolding delete_with_audit
  delete_with_audit-DeleteOutcome tx up audits actor alias ip db =
      elim (Bool-cases (not (is_positive actor) || is_empty alias)) [
        | inl bad ↦ rw bad refl
        | inr good ↦ rw good (
            in_transaction-Outcome pg.valid_json (append_entry audits) _ (delete pg up alias) db tx)
      ]
