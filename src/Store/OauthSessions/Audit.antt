-- ===== src/Store/OauthSessions/Audit.antt =====
-- The transaction of `CancelWithAudit` in internal/store/oauth_sessions.go.
use cliproxy_new.Base.{
  ℕ, zero, suc, ◌≡◌, refl, sym, ap, ◌∙◌, Bool, true, false, ◌||◌, not, Option, List, [], ◌∷◌, ◌++◌,
  ℤ, is_positive, is_empty, if◌then◌else◌, GoString, Result, ok, err,
}
use cliproxy_new.Store.{StoreError, Done, other, invalid_input}
use cliproxy_new.Store.OauthSessions.{
  OauthRow, OauthDb, AuditEntry, Transaction, update_pending, changed, update, cancel,
  cancelled_row, insert_audit, insert_valid, append_entry, is_entry, cancel_entry, committed,
  audited, cancel_with_audit,
}

-- The state before a cancellation, what was answered and the state behind it.
pub Atomic : GoString → AuditEntry → ℕ → OauthDb → Result StoreError Done × OauthDb → Type 0
Atomic state e now db (err x, after) = after ≡ db
Atomic state e now db (ok u, after) =
    (n : ℕ) × ((update_pending (cancelled_row now) state db.rows).1 ≡ suc n)
    × (after.rows ≡ (update_pending (cancelled_row now) state db.rows).0)
    × (after.audit ≡ db.audit ++ e ∷ [])

-- A cancellation that is not yet committed.
Cancelled : GoString → ℕ → OauthDb → Result StoreError Done × OauthDb → Type 0
Cancelled state now db (err x, after) = Unit
Cancelled state now db (ok u, after) =
    (n : ℕ) × ((update_pending (cancelled_row now) state db.rows).1 ≡ suc n)
    × (after.rows ≡ (update_pending (cancelled_row now) state db.rows).0)
    × (after.audit ≡ db.audit)

changed-Cancelled :
    (state : GoString) (now : ℕ) (db : OauthDb) (o : List OauthRow × ℕ)
    → update_pending (cancelled_row now) state db.rows ≡ o
    → Cancelled state now db (changed o db)
unfolding changed Cancelled
changed-Cancelled state now db (rows, zero) e = tt
changed-Cancelled state now db (rows, suc n) e = (n, ap (λ o. o.1) e, sym (ap (λ o. o.0) e), refl)

cancel-Cancelled :
    (state : GoString) (up : Bool) (now : ℕ) (db : OauthDb)
    → Cancelled state now db (cancel state up now db)
unfolding cancel update Cancelled
cancel-Cancelled state true now db =
    changed-Cancelled state now db (update_pending (cancelled_row now) state db.rows) refl
cancel-Cancelled state false now db = tt

inserted :
    (valid up : Bool) (e : AuditEntry) (db after : OauthDb) (u : Done)
    → insert_valid valid up e db ≡ (ok u, after)
    → (after.rows ≡ db.rows) × (after.audit ≡ db.audit ++ e ∷ [])
unfolding insert_valid append_entry
inserted false up e db after u h = cc
inserted true false e db after u h = cc
inserted true true e db after u h = (ap (λ o. o.1.rows) (sym h), ap (λ o. o.1.audit) (sym h))

-- An insert that succeeds adds the entry and changes no row.
insert_audit-ok :
    (valid_json : GoString → Bool) (e : AuditEntry) (up : Bool) (db after : OauthDb) (u : Done)
    → insert_audit valid_json e up db ≡ (ok u, after)
    → (after.rows ≡ db.rows) × (after.audit ≡ db.audit ++ e ∷ [])
unfolding insert_audit
insert_audit-ok valid_json e up db after u h = inserted (is_entry valid_json e) up e db after u h

committed-Atomic :
    (state : GoString) (e : AuditEntry) (now : ℕ) (db written : OauthDb) (commits : Bool)
    (o : Result StoreError Done × OauthDb)
    → Cancelled state now db (ok tt, written)
    → ((u : Done) (after : OauthDb)
        → o ≡ (ok u, after)
        → (after.rows ≡ written.rows) × (after.audit ≡ written.audit ++ e ∷ []))
    → Atomic state e now db (committed db commits o)
unfolding committed Atomic Cancelled
committed-Atomic state e now db written commits (err x, after) c inserts = refl
committed-Atomic state e now db written false (ok u, after) c inserts = refl
committed-Atomic state e now db written true (ok u, after) (n, hit, rows, audit) inserts =
    let (same, added) = inserts u after refl in
    (n, hit, same ∙ rows, added ∙ ap (λ es. es ++ e ∷ []) audit)

audited-Atomic :
    (valid_json : GoString → Bool) (state : GoString) (e : AuditEntry) (now : ℕ) (db : OauthDb)
    (tx : Transaction) (o : Result StoreError Done × OauthDb)
    → Cancelled state now db o
    → Atomic state e now db (audited valid_json db e tx o)
unfolding audited Atomic
audited-Atomic valid_json state e now db tx (err x, after) c = refl
audited-Atomic valid_json state e now db tx (ok u, written) c =
    committed-Atomic state e now db written tx.commits
      (insert_audit valid_json e tx.inserts written) c
      (λ v after h. insert_audit-ok valid_json e tx.inserts written after v h)

guarded :
    (state : GoString) (e : AuditEntry) (now : ℕ) (db : OauthDb) (refused begins : Bool)
    (o : Result StoreError Done × OauthDb)
    → Atomic state e now db o
    → Atomic state e now db
        (if refused then (err invalid_input, db) else (if begins then o else (err other, db)))
unfolding Atomic
guarded state e now db true begins o a = refl
guarded state e now db false true o a = a
guarded state e now db false false o a = refl

-- A cancellation with audit, whichever of its steps fail: if it succeeds, it changed a pending row
-- of the state to cancelled and added the one audit entry of the actor; if it does not, the rows
-- and the audit log are what they were.
pub cancel_with_audit-Atomic :
    (valid_json : GoString → Bool) (actor : ℤ) (state : GoString) (ip : Option GoString)
    (tx : Transaction) (now : ℕ) (db : OauthDb)
    → Atomic state
        (cancel_entry actor state ip)
        now
        db
        (cancel_with_audit valid_json actor state ip tx now db)
unfolding cancel_with_audit Atomic
cancel_with_audit-Atomic valid_json actor state ip tx now db =
    guarded state (cancel_entry actor state ip) now db (not (is_positive actor) || is_empty state)
      tx.begins _
      (audited-Atomic valid_json state (cancel_entry actor state ip) now db tx
        (cancel state tx.cancels now db) (cancel-Cancelled state tx.cancels now db))
