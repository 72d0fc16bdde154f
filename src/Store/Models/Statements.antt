-- ===== src/Store/Models/Statements.antt =====
-- The statements of db/queries/model_overrides.sql keep one row to an alias, and act on the rules of
-- the rows as on a finite map.
use cliproxy_new.Base.{
  ◌≡◌, ◌≢◌, refl, inl, inr, Bool-cases, not, List, [], ◌∷◌, map, filter, assign, keep_keys, ℤ,
  list_eq, nat_eq, ◌==◌, ==_iff, GoString, arith,
}
use cliproxy_new.Store.Models.{
  UpsertModelOverrideParams, Postgres, row_of, upsert_row, is_not_named,
}
use cliproxy_new.Store.Models.Rules.{Rule, entry, Fresh, Distinct}
use cliproxy_new.Auth.Selector.{ModelOverride}

pub rule_of : UpsertModelOverrideParams → Rule
rule_of p = record { provider = p.provider; enabled = p.enabled }

module _ (pg : Postgres) (p : UpsertModelOverrideParams) where
  pub entry-upsert_row :
      (id : ℤ) (rows : List ModelOverride)
      → map entry (upsert_row pg id p rows).0 ≡ assign p.model_alias (rule_of p) (map entry rows)
  unfolding upsert_row row_of assign rule_of
  entry-upsert_row id [] = refl
  entry-upsert_row id (r ∷ rows) =
      ground (arith, entry-upsert_row id rows, ==_iff r.model_alias p.model_alias)

  Fresh-upsert_row :
      (id : ℤ) (rows : List ModelOverride) (alias : GoString)
      → p.model_alias ≢ alias
      → Fresh alias rows
      → Fresh alias (upsert_row pg id p rows).0
  unfolding upsert_row row_of
  Fresh-upsert_row id [] alias differs fresh = (differs, tt)
  Fresh-upsert_row id (r ∷ rows) alias differs fresh =
      elim (Bool-cases (r.model_alias == p.model_alias)) [
        | inl e ↦ rw e (differs, fresh.1)
        | inr e ↦ rw e (fresh.0, Fresh-upsert_row id rows alias differs fresh.1)
      ]

  pub Distinct-upsert_row :
      (id : ℤ) (rows : List ModelOverride) → Distinct rows → Distinct (upsert_row pg id p rows).0
  unfolding upsert_row row_of
  Distinct-upsert_row id [] distinct = (tt, tt)
  Distinct-upsert_row id (r ∷ rows) distinct = elim (Bool-cases (r.model_alias == p.model_alias)) [
    | inl e ↦ rw e (rw ((==_iff r.model_alias p.model_alias).0 e) at (distinct.0), distinct.1)
    | inr e ↦ rw e (
      Fresh-upsert_row id rows r.model_alias
          (λ same. ground (arith, ==_iff r.model_alias p.model_alias, same, e)) distinct.0,
      Distinct-upsert_row id rows distinct.1,
    )
  ]

module _ (alias : GoString) where
  pub entry-filter :
      (rows : List ModelOverride)
      → map entry (filter (is_not_named alias) rows)
        ≡ keep_keys (λ a. not (a == alias)) (map entry rows)
  unfolding filter is_not_named keep_keys
  entry-filter [] = refl
  entry-filter (r ∷ rows) = ground (arith, entry-filter rows)

  Fresh-filter :
      (rows : List ModelOverride) (other : GoString)
      → Fresh other rows
      → Fresh other (filter (is_not_named alias) rows)
  unfolding filter is_not_named
  Fresh-filter [] other fresh = tt
  Fresh-filter (r ∷ rows) other fresh = elim (Bool-cases (r.model_alias == alias)) [
    | inl e ↦ rw e (Fresh-filter rows other fresh.1)
    | inr e ↦ rw e (fresh.0, Fresh-filter rows other fresh.1)
  ]

  pub Distinct-filter :
      (rows : List ModelOverride) → Distinct rows → Distinct (filter (is_not_named alias) rows)
  unfolding filter is_not_named
  Distinct-filter [] distinct = tt
  Distinct-filter (r ∷ rows) distinct = elim (Bool-cases (r.model_alias == alias)) [
    | inl e ↦ rw e (Distinct-filter rows distinct.1)
    | inr e ↦ rw e (Fresh-filter rows r.model_alias distinct.0, Distinct-filter rows distinct.1)
  ]
