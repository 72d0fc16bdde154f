-- ===== src/Store/Audited/Atomicity.antt =====
-- The transaction of internal/store/admin_users.go and admin_models.go: all of it or nothing.
use cliproxy_new.Base.{
  ◌≡◌, refl, inl, inr, Bool, true, false, Bool-cases, ◌||◌, not, GoString, Result, ok, err,
}
use cliproxy_new.Store.{StoreError, Done, QueryError}
use cliproxy_new.Store.OauthSessions.{AuditEntry, is_entry}
use cliproxy_new.Store.Audited.{
  Transaction, Insert, entered, insert_audit, with_value, audited, ended, in_transaction,
}

module _ {D A : Type 0} (valid_json : GoString → Bool) (insert : Insert D) (e : AuditEntry)
    (write : D → Result StoreError A × D) (d : D) where
  -- The two writes: the operation's own, and then the audit entry.
  pub record Written (a : A) (after : D) : Type 0 where
    pub between : D
    pub changed : write d ≡ (ok a, between)
    pub valid : is_entry valid_json e ≡ true
    pub entry : insert e between ≡ (ok tt, after)

  -- An error leaves the database as it was; a success has made both writes.
  abbrev pub Outcome : Result StoreError A × D → Type 0
  Outcome (err x, after) = after ≡ d
  Outcome (ok a, after) = Written a after

  -- Both writes, before the commit.
  abbrev Pending : Result StoreError A × D → Type 0
  Pending (err x, after) = Unit {0}
  Pending (ok a, after) = Written a after

  ended-Outcome :
      (commits : Bool) (o : Result StoreError A × D) → Pending o → Outcome (ended d commits o)
  unfolding ended
  ended-Outcome commits (err x, after) w = refl
  ended-Outcome true (ok a, after) w = w
  ended-Outcome false (ok a, after) w = refl

  entered-Pending :
      (a : A) (between : D)
      → write d ≡ (ok a, between)
      → is_entry valid_json e ≡ true
      → (o : Result QueryError Done × D) → insert e between ≡ o
      → Pending (with_value a (entered o))
  unfolding entered with_value
  entered-Pending a between changed valid (err x, after) entry = tt
  entered-Pending a between changed valid (ok u, after) entry = record {
    between = between;
    changed = changed;
    valid = valid;
    entry = entry;
  }

  audited-Pending :
      (o : Result StoreError A × D) → write d ≡ o → Pending (audited valid_json insert e o)
  unfolding audited insert_audit with_value
  audited-Pending (err x, between) changed = tt
  audited-Pending (ok a, between) changed = elim (Bool-cases (is_entry valid_json e)) [
    | inl valid ↦ rw valid (entered-Pending a between changed valid _ refl)
    | inr invalid ↦ rw invalid tt
  ]

  -- A write in a transaction with its audit entry, whatever the database answers: where it reports
  -- success, the write was made and the entry, a valid one, inserted after it; where it reports an
  -- error, the database is what it was.
  pub in_transaction-Outcome :
      (tx : Transaction) → Outcome (in_transaction valid_json insert tx e write d)
  unfolding in_transaction
  in_transaction-Outcome tx = elim (Bool-cases (not tx.transactional || not tx.begins)) [
    | inl absent ↦ rw absent refl
    | inr present ↦ rw present (ended-Outcome tx.commits _ (audited-Pending _ refl))
  ]
