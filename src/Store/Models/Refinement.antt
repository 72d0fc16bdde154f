-- ===== src/Store/Models/Refinement.antt =====
-- Sequences of the operations of internal/store/admin_models.go act on the table as on a finite map
-- from aliases to rules, which is what the selector reads.
use cliproxy_new.Base.{
  ◌≡◌, refl, ap, ◌∙◌, Bool, true, false, not, Option, List, [], ◌∷◌, map, filter, assign, keep_keys,
  ℤ, list_eq, nat_eq, ◌==◌, GoString, Result, ok, err,
}
use cliproxy_new.Store.{StoreError, Done}
use cliproxy_new.Store.Audited.{Transaction}
use cliproxy_new.Store.Models.{
  UpsertModelOverrideParams, ModelsDb, Postgres, upsert_row, ordered, is_not_named,
  upsert_with_audit, delete_with_audit,
}
use cliproxy_new.Store.Models.Rules.{Rules, allowed, entry, Distinct, resolve-ordered}
use cliproxy_new.Store.Models.Statements.{
  rule_of, entry-upsert_row, Distinct-upsert_row, entry-filter, Distinct-filter,
}
use cliproxy_new.Auth.Selector.{ModelOverride, resolve}
use cliproxy_new.Store.Models.Changes.{
  append_entry-rows, upsert-rows, delete-rows, UpsertOutcome, DeleteOutcome,
  upsert_with_audit-UpsertOutcome, delete_with_audit-DeleteOutcome,
}

-- A call of an administrator, with what the database answers to it.
pub data Operation : Type 0 where
  upserts :
      Transaction → Bool → Bool → ℤ → ℤ → UpsertModelOverrideParams → Option GoString → Operation
  deletes : Transaction → Bool → Bool → ℤ → GoString → Option GoString → Operation

is_ok : {A : Type 0} → Result StoreError A → Bool
is_ok (err e) = false
is_ok (ok a) = true

succeeded : {A : Type 0} → Result StoreError A × ModelsDb → Bool × ModelsDb
succeeded (result, db) = (is_ok result, db)

-- The operation on a map of rules, where it succeeded.
on_rules : Operation → Bool → Rules → Rules
on_rules op false rules = rules
on_rules (upserts tx up audits id actor p ip) true rules = assign p.model_alias (rule_of p) rules
on_rules (deletes tx up audits actor alias ip) true rules = keep_keys (λ a. not (a == alias)) rules

module _ (pg : Postgres) where
  -- Whether the operation succeeds, and the database behind it.
  unfoldable pub step : Operation → ModelsDb → Bool × ModelsDb
  unfolding is_ok succeeded
  step (upserts tx up audits id actor p ip) db =
      succeeded (upsert_with_audit pg tx up audits id actor p ip db)
  step (deletes tx up audits actor alias ip) db =
      succeeded (delete_with_audit pg tx up audits actor alias ip db)

  unfoldable pub run : ModelsDb → List Operation → ModelsDb
  run db [] = db
  run db (op ∷ ops) = run (step op db).1 ops

  -- The map of rules that the operations that succeed have made.
  pub rules_after : ModelsDb → Rules → List Operation → Rules
  unfolding on_rules
  rules_after db rules [] = rules
  rules_after db rules (op ∷ ops) =
      rules_after (step op db).1 (on_rules op (step op db).0 rules) ops

  record Refines (db : ModelsDb) (rules : Rules) : Type 0 where
    same : map entry db.rows ≡ rules
    distinct : Distinct db.rows

  kept-Refines :
      (db after : ModelsDb) (rules : Rules) → after ≡ db → Refines db rules → Refines after rules
  kept-Refines db after rules e r = rw e r

  upserted-Refines :
      (tx : Transaction) (up audits : Bool) (id actor : ℤ) (p : UpsertModelOverrideParams)
      (ip : Option GoString) (db : ModelsDb) (rules : Rules)
      (o : Result StoreError ModelOverride × ModelsDb)
      → Refines db rules
      → UpsertOutcome pg up audits id actor p ip db o
      → Refines
          (succeeded o).1
          (on_rules (upserts tx up audits id actor p ip) (succeeded o).0 rules)
  unfolding succeeded is_ok on_rules
  upserted-Refines tx up audits id actor p ip db rules (err x, after) r w =
      kept-Refines db after rules w r
  upserted-Refines tx up audits id actor p ip db rules (ok row, after) r w =
      let rows : after.rows ≡ (upsert_row pg id p db.rows).0 =
        append_entry-rows audits _ w.between after w.entry
        ∙ upsert-rows pg up id p db w.between row w.changed in
      record {
        same =
            ap (map entry) rows
            ∙ entry-upsert_row pg p id db.rows
            ∙ ap (assign p.model_alias (rule_of p)) r.same;
        distinct = rw rows (Distinct-upsert_row pg p id db.rows r.distinct);
      }

  deleted-Refines :
      (tx : Transaction) (up audits : Bool) (actor : ℤ) (alias : GoString) (ip : Option GoString)
      (db : ModelsDb) (rules : Rules) (o : Result StoreError Done × ModelsDb)
      → Refines db rules
      → DeleteOutcome pg up audits actor alias ip db o
      → Refines
          (succeeded o).1
          (on_rules (deletes tx up audits actor alias ip) (succeeded o).0 rules)
  unfolding succeeded is_ok on_rules
  deleted-Refines tx up audits actor alias ip db rules (err x, after) r w =
      kept-Refines db after rules w r
  deleted-Refines tx up audits actor alias ip db rules (ok u, after) r w =
      let rows : after.rows ≡ filter (is_not_named alias) db.rows =
        append_entry-rows audits _ w.between after w.entry
        ∙ delete-rows pg up alias db w.between w.changed in
      record {
        same =
            ap (map entry) rows
            ∙ entry-filter alias db.rows
            ∙ ap (keep_keys (λ a. not (a == alias))) r.same;
        distinct = rw rows (Distinct-filter alias db.rows r.distinct);
      }

  step-Refines :
      (op : Operation) (db : ModelsDb) (rules : Rules)
      → Refines db rules
      → Refines (step op db).1 (on_rules op (step op db).0 rules)
  unfolding step
  step-Refines (upserts tx up audits id actor p ip) db rules r =
      upserted-Refines tx up audits id actor p ip db rules _ r
        (upsert_with_audit-UpsertOutcome pg tx up audits id actor p ip db)
  step-Refines (deletes tx up audits actor alias ip) db rules r =
      deleted-Refines tx up audits actor alias ip db rules _ r
        (delete_with_audit-DeleteOutcome pg tx up audits actor alias ip db)

  run-Refines :
      (ops : List Operation) (db : ModelsDb) (rules : Rules)
      → Refines db rules
      → Refines (run db ops) (rules_after db rules ops)
  unfolding run rules_after
  run-Refines [] db rules r = r
  run-Refines (op ∷ ops) db rules r =
      run-Refines ops (step op db).1 (on_rules op (step op db).0 rules) (step-Refines op db rules r)

  -- After any sequence of audited upserts and deletions on an empty table, whichever transactions and
  -- statements fail: the rows that are listed, in whatever order of texts, allow a model exactly what
  -- the finite map does that was updated by the operations that succeeded. A model without an entry
  -- is refused as not allowed and one whose rule is disabled as disabled; an empty map allows every
  -- model of the provider asked for.
  pub run-resolve :
      (ops : List Operation) (provider model : GoString)
      → resolve (ordered pg.less (run (record { rows = []; audit = [] }) ops).rows) provider model
        ≡ allowed (rules_after (record { rows = []; audit = [] }) [] ops) provider model
  run-resolve ops provider model =
      let r =
        run-Refines ops (record { rows = []; audit = [] }) []
          (record { same = refl; distinct = tt }) in
      resolve-ordered pg.less (run (record { rows = []; audit = [] }) ops).rows provider model
        r.distinct
      ∙ ap (λ rules. allowed rules provider model) r.same
