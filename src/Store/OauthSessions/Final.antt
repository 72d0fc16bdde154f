-- ===== src/Store/OauthSessions/Final.antt =====
-- Sequences of the operations of internal/store/oauth_sessions.go, and of deletions of upstream
-- accounts, on a row that is not `pending`.
use cliproxy_new.Base.{
  ℕ, zero, suc, ◌≡◌, refl, sym, ap, subst, Bool, true, false, ◌&&◌, ◌||◌, not, Option, none, some,
  List, [], ◌∷◌, ◌++◌, ℤ, is_positive, is_empty, list_eq, nat_eq, ◌==◌, GoString, Result, ok, err,
  Bool-cases, ◌⊎◌, inl, inr, arith, ◌∙◌, Among, ==_iff,
}
use cliproxy_new.Store.{StoreError, Done, nullable_text}
use cliproxy_new.Store.OauthSessions.{
  OauthRow, OauthDb, CreateOauthParams, AuditEntry, Transaction, pending, find_row, is_pending_at,
  update_pending, new_row, is_invalid, insert_row, create_until, create, changed, update,
  cancelled_row, completed_row, failed_row, cancel, complete, fail, insert_audit, insert_valid,
  append_entry, is_entry, committed, audited, cancel_with_audit, cancel_entry, without_account,
  account_deleted,
}
use cliproxy_new.Store.OauthSessions.Accounts.{
  found_cases, without_account-status, find_row-account_deleted,
}

-- An operation, or the deletion of an upstream account, by whomever; the flag tells whether its query
-- is answered, the number is the time.
pub data Op : Type 0 where
  creates : CreateOauthParams → Bool → ℕ → Op
  cancels : GoString → Bool → ℕ → Op
  completes fails : GoString → GoString → Bool → ℕ → Op
  cancels_audited : ℤ → GoString → Option GoString → Transaction → ℕ → Op
  deletes_account : GoString → Op

module _ (valid_json : GoString → Bool) where
  pub apply : OauthDb → Op → OauthDb
  apply db (creates p up now) = (create p up now db).1
  apply db (cancels state up now) = (cancel state up now db).1
  apply db (completes state auth_id up now) = (complete state auth_id up now db).1
  apply db (fails state message up now) = (fail state message up now db).1
  apply db (cancels_audited actor state ip tx now) =
      (cancel_with_audit valid_json actor state ip tx now db).1
  apply db (deletes_account id) = account_deleted id db

  pub apply_all : OauthDb → List Op → OauthDb
  unfolding apply
  apply_all db [] = db
  apply_all db (o ∷ ops) = apply_all (apply db o) ops

-- The row of a state, which is not pending.
unfoldable pub Ended : GoString → OauthRow → OauthDb → Type 0
Ended state row db = (find_row db.rows state ≡ some row) × ((row.status == pending) ≡ false)

found_later :
    (rows : List OauthRow) (state : GoString) (row r : OauthRow)
    → find_row rows state ≡ some row
    → find_row (rows ++ r ∷ []) state ≡ some row
unfolding find_row
found_later [] state row r h = cc
found_later (x ∷ rows) state row r h = ground (arith, found_later rows state row r)

find_row-update_pending :
    (f : OauthRow → OauthRow) (state target : GoString) (row : OauthRow) (rows : List OauthRow)
    → ((r : OauthRow) → (f r).state ≡ r.state)
    → (row.status == pending) ≡ false
    → find_row rows state ≡ some row
    → find_row (update_pending f target rows).0 state ≡ some row
unfolding find_row update_pending is_pending_at
find_row-update_pending f state target row [] keeps ended h = h
find_row-update_pending f state target row (x ∷ rows) keeps ended h =
    elim (found_cases (x.state == state) x (find_row rows state) row h) [
      | inl (here, same) ↦
          let calm = subst (λ y. (y.status == pending) ≡ false) (sym same) ended in
          elim (Bool-cases (x.state == target)) [
            | inl hit ↦ simp (hit, calm, here) (ap some same)
            | inr miss ↦ simp (miss, here) (ap some same)
          ]
      | inr (other_state, more) ↦
          let rest = find_row-update_pending f state target row rows keeps ended more in
          elim (Bool-cases (x.state == target && x.status == pending)) [
            | inl hit ↦ simp (hit, keeps x, other_state) rest
            | inr miss ↦ simp (miss, other_state) rest
          ]
    ]

changed-Ended :
    (state : GoString) (row : OauthRow) (db : OauthDb) (o : List OauthRow × ℕ)
    → find_row o.0 state ≡ some row
    → (row.status == pending) ≡ false
    → Ended state row (changed o db).1
unfolding changed Ended
changed-Ended state row db (rows, zero) h ended = (h, ended)
changed-Ended state row db (rows, suc n) h ended = (h, ended)

update-Ended :
    (f : OauthRow → OauthRow) (state target : GoString) (row : OauthRow) (up : Bool) (db : OauthDb)
    → ((r : OauthRow) → (f r).state ≡ r.state)
    → Ended state row db
    → Ended state row (update f target up db).1
unfolding update Ended
update-Ended f state target row true db keeps (h, ended) =
    changed-Ended state row db (update_pending f target db.rows)
      (find_row-update_pending f state target row db.rows keeps ended h) ended
update-Ended f state target row false db keeps e = e

cancel-Ended :
    (state target : GoString) (row : OauthRow) (up : Bool) (now : ℕ) (db : OauthDb)
    → Ended state row db
    → Ended state row (cancel target up now db).1
unfolding cancel cancelled_row
cancel-Ended state target row up now db e =
    update-Ended (cancelled_row now) state target row up db (λ r. refl) e

insert_row-Ended :
    (old : Option OauthRow) (up : Bool) (r : OauthRow) (state : GoString) (row : OauthRow)
    (db : OauthDb)
    → Ended state row db
    → Ended state row (insert_row old up r db).1
unfolding insert_row Ended
insert_row-Ended (some old) up r state row db e = e
insert_row-Ended none false r state row db e = e
insert_row-Ended none true r state row db (h, ended) = (found_later db.rows state row r h, ended)

create_until-Ended :
    (expires : Option ℕ) (p : CreateOauthParams) (up : Bool) (now : ℕ) (state : GoString)
    (row : OauthRow) (db : OauthDb)
    → Ended state row db
    → Ended state row (create_until expires p up now db).1
unfolding create_until
create_until-Ended none p up now state row db e = e
create_until-Ended (some expires) p up now state row db e =
    insert_row-Ended (find_row db.rows p.state) up (new_row p expires now) state row db e

create-Ended :
    (p : CreateOauthParams) (up : Bool) (now : ℕ) (state : GoString) (row : OauthRow) (db : OauthDb)
    → Ended state row db
    → Ended state row (create p up now db).1
unfolding create
create-Ended p up now state row db e = elim (Bool-cases (is_invalid p)) [
  | inl bad ↦ rw bad e
  | inr good ↦ rw good (create_until-Ended p.expires_at p up now state row db e)
]

-- What a row may become: it stays, or its account is deleted and it no longer names it.
abbrev pub Kept : List Op → OauthRow → OauthRow → Type 0
Kept ops row row' =
    (row' ≡ row)
    ⊎ ((id : GoString) × (row.auth_id ≡ some id)
        × Among (deletes_account id) ops
        × (row' ≡ record row { auth_id = none }))

Kept-later :
    (o : Op) (ops : List Op) (a b c : OauthRow)
    → Kept (o ∷ []) a b
    → Kept ops b c
    → Kept (o ∷ ops) a c
Kept-later o ops a b c (inl e) (inl f) = inl (f ∙ e)
Kept-later o ops a b c (inl e) (inr (id, h, m, f)) = inr (
  id,
  ap (λ r. r.auth_id) (sym e) ∙ h,
  inr m,
  f ∙ ap {A = OauthRow} (λ r. record r { auth_id = none }) e,
)
Kept-later o ops a b c (inr (id, h, inl here, e)) (inl f) = inr (id, h, inl here, f ∙ e)
Kept-later o ops a b c (inr (id, h, inr n, e)) f = absurd n
Kept-later o ops a b c (inr (id, h, inl here, e)) (inr (other, k, m, f)) =
    let gone : b.auth_id ≡ none = ap (λ r. r.auth_id) e in cc

deleted-Kept :
    (auth_id : Option GoString) (id : GoString) (row : OauthRow)
    → row.auth_id ≡ auth_id
    → Kept (deletes_account id ∷ []) row (without_account auth_id id row)
unfolding without_account
deleted-Kept none id row e = inl refl
deleted-Kept (some auth_id) id row e = elim (Bool-cases (auth_id == id)) [
  | inl same ↦ rw same (inr (id, e ∙ ap some ((==_iff auth_id id).0 same), inl refl, refl))
  | inr other ↦ rw other (inl refl)
]

account_deleted-Ended :
    (id state : GoString) (row : OauthRow) (db : OauthDb)
    → Ended state row db
    → Ended state (without_account row.auth_id id row) (account_deleted id db)
unfolding Ended account_deleted
account_deleted-Ended id state row db (h, ended) = (
  find_row-account_deleted id state row db.rows h,
  rw (without_account-status row.auth_id id row) ended,
)

insert_valid-Ended :
    (valid up : Bool) (x : AuditEntry) (state : GoString) (row : OauthRow) (db : OauthDb)
    → Ended state row db
    → Ended state row (insert_valid valid up x db).1
unfolding insert_valid append_entry Ended
insert_valid-Ended false up x state row db e = e
insert_valid-Ended true false x state row db e = e
insert_valid-Ended true true x state row db e = e

committed-Ended :
    (commits : Bool) (o : Result StoreError Done × OauthDb) (state : GoString) (row : OauthRow)
    (db : OauthDb)
    → Ended state row db
    → Ended state row o.1
    → Ended state row (committed db commits o).1
unfolding committed
committed-Ended commits (err x, after) state row db before e = before
committed-Ended false (ok u, after) state row db before e = before
committed-Ended true (ok u, after) state row db before e = e

module _ (valid_json : GoString → Bool) where
  audited-Ended :
      (x : AuditEntry) (tx : Transaction) (o : Result StoreError Done × OauthDb) (state : GoString)
      (row : OauthRow) (db : OauthDb)
      → Ended state row db
      → Ended state row o.1
      → Ended state row (audited valid_json db x tx o).1
  unfolding audited insert_audit
  audited-Ended x tx (err y, after) state row db before e = before
  audited-Ended x tx (ok u, after) state row db before e =
      committed-Ended tx.commits (insert_audit valid_json x tx.inserts after) state row db before
        (insert_valid-Ended (is_entry valid_json x) tx.inserts x state row after e)

  cancel_with_audit-Ended :
      (actor : ℤ) (target : GoString) (ip : Option GoString) (tx : Transaction) (now : ℕ)
      (state : GoString) (row : OauthRow) (db : OauthDb)
      → Ended state row db
      → Ended state row (cancel_with_audit valid_json actor target ip tx now db).1
  unfolding cancel_with_audit
  cancel_with_audit-Ended actor target ip tx now state row db e =
      elim (Bool-cases (not (is_positive actor) || is_empty target)) [
        | inl bad ↦ rw bad e
        | inr good ↦ elim (Bool-cases tx.begins) [
          | inl begun ↦
              simp (good, begun)
                (audited-Ended (cancel_entry actor target ip) tx (cancel target tx.cancels now db)
                  state row db e (cancel-Ended state target row tx.cancels now db e))
          | inr broken ↦ simp (good, broken) e
        ]
      ]

  apply-Ended :
      (state : GoString) (row : OauthRow) (db : OauthDb) (o : Op)
      → Ended state row db
      → (row' : OauthRow) × Ended state row' (apply valid_json db o) × Kept (o ∷ []) row row'
  unfolding apply complete fail completed_row failed_row
  apply-Ended state row db (creates p up now) e =
      (row, create-Ended p up now state row db e, inl refl)
  apply-Ended state row db (cancels target up now) e =
      (row, cancel-Ended state target row up now db e, inl refl)
  apply-Ended state row db (completes target auth_id up now) e = (
    row,
    update-Ended (completed_row (nullable_text auth_id) now) state target row up db (λ r. refl) e,
    inl refl,
  )
  apply-Ended state row db (fails target message up now) e = (
    row,
    update-Ended (failed_row (nullable_text message) now) state target row up db (λ r. refl) e,
    inl refl,
  )
  apply-Ended state row db (cancels_audited actor target ip tx now) e =
      (row, cancel_with_audit-Ended actor target ip tx now state row db e, inl refl)
  apply-Ended state row db (deletes_account id) e = (
    without_account row.auth_id id row,
    account_deleted-Ended id state row db e,
    deleted-Kept row.auth_id id row refl,
  )

  -- Once the flow of a state has left `pending`, a sequence of creations, cancellations, with audit
  -- or without, completions and failures, whichever of their queries fail, and of deletions of
  -- upstream accounts leaves its row as it was, but that it no longer names its account if the
  -- sequence deletes that account; it has not come back to `pending`.
  pub apply_all-Ended :
      (state : GoString) (row : OauthRow) (db : OauthDb) (ops : List Op)
      → Ended state row db
      → (row' : OauthRow) × Ended state row' (apply_all valid_json db ops) × Kept ops row row'
  unfolding apply_all
  apply_all-Ended state row db [] e = (row, e, inl refl)
  apply_all-Ended state row db (o ∷ ops) e =
      let (next, ended, kept) = apply-Ended state row db o e in
      let (last, done, stays) = apply_all-Ended state next (apply valid_json db o) ops ended in
      (last, done, Kept-later o ops row next last kept stays)
