-- ===== src/Store/CoreAuth/Deletion.antt =====
-- `Delete` of internal/store/coreauth_store.go, with and without transactions.
use cliproxy_new.Base.{
  ℕ, ◌+◌, ◌≡◌, refl, sym, ap, ◌∙◌, subst, ◌⊎◌, Bool, true, false, inl, inr, Option, some, List,
  is_empty, list_eq, nat_eq, filter, if◌then◌else◌, GoString, trim_space, Result, ok, err,
  >>=_inversion, IsOrder, order_by, order_by-filter,
}
use cliproxy_new.Store.{StoreError, invalid_input, other, Done}
use cliproxy_new.Security.Keyring.{Aead, Keyring}
use cliproxy_new.Store.CoreAuth.{Sdk, Auth, Account}
use cliproxy_new.Store.CoreAuth.Tables.{
  Tables, Answers, Connection, pool, plain, has_other_id, delete_account, increment, commit, settle,
  delete_transaction, incremented_after, delete_with, delete, list, list_with, list_rows,
  list_accounts,
}
use cliproxy_new.Store.CoreAuth.Writes.{passed, increment-ok, commit-ok}
use cliproxy_new.Store.CoreAuth.Places.{has_other, list_rows-delete}

-- The table without the rows of an id.
abbrev pub without : GoString → Tables → List Account
without id t = filter (has_other_id id) t.accounts

-- A deletion that is counted.
pub record Deleted (id : GoString) (t after : Tables) : Type 0 where
  pub accounts : after.accounts ≡ without id t
  pub revision : ℕ
  pub was : t.revision ≡ some revision
  pub is_now : after.revision ≡ some (revision + 1)
  pub log : after.audit ≡ t.audit

-- What a deletion came to. Without transactions an error may leave the rows deleted and the
-- revision as it was.
abbrev pub Outcome : Connection → GoString → Tables → Result StoreError Done × Tables → Type 0
Outcome pool id t (err e, after) = after ≡ t
Outcome plain id t (err e, after) = (after ≡ t) ⊎ (after ≡ record t { accounts = without id t })
Outcome c id t (ok u, after) = Deleted id t after

delete_account-ok :
    (up : Bool) (id : GoString) (t after : Tables)
    → delete_account up id t ≡ ok after
    → record t { accounts = without id t } ≡ after
unfolding delete_account
delete_account-ok up id t after h = passed up (record t { accounts = without id t }) after other h

counted :
    (up : Bool) (id : GoString) (t deleted after : Tables)
    → record t { accounts = without id t } ≡ deleted
    → increment up deleted ≡ ok after
    → Deleted id t after
counted up id t deleted after e h =
    let (n, was, fits, same) = increment-ok up deleted after h in
    record {
      accounts = ap (λ x. x.accounts) (sym same) ∙ ap (λ x. x.accounts) (sym e);
      revision = n;
      was = ap (λ x. x.revision) e ∙ was;
      is_now = ap (λ x. x.revision) (sym same);
      log = ap (λ x. x.audit) (sym same) ∙ ap (λ x. x.audit) (sym e);
    }

delete_transaction-Deleted :
    (answers : Answers) (id : GoString) (t after : Tables)
    → delete_transaction answers id t ≡ ok after
    → Deleted id t after
unfolding delete_transaction
delete_transaction-Deleted answers id t after h =
    let (t2, h2, c) = >>=_inversion _ (commit answers.commits) h in
    let (t1, d, i) =
      >>=_inversion (delete_account answers.writes id t) (increment answers.increments) h2 in
    subst (Deleted id t) (commit-ok answers.commits t2 after c)
      (counted answers.increments id t t1 t2 (delete_account-ok answers.writes id t t1 d) i)

settle-pool :
    (id : GoString) (t : Tables) (o : Result StoreError Tables)
    → ((after : Tables) → o ≡ ok after → Deleted id t after)
    → Outcome pool id t (settle tt t o)
unfolding settle
settle-pool id t (err e) deleted = refl
settle-pool id t (ok after) deleted = deleted after refl

settle-plain :
    (id : GoString) (t deleted : Tables) (o : Result StoreError Tables)
    → record t { accounts = without id t } ≡ deleted
    → ((after : Tables) → o ≡ ok after → Deleted id t after)
    → Outcome plain id t (settle tt deleted o)
unfolding settle
settle-plain id t deleted (err e) same done = inr (sym same)
settle-plain id t deleted (ok after) same done = done after refl

incremented_after-Outcome :
    (answers : Answers) (id : GoString) (t : Tables) (o : Result StoreError Tables)
    → ((deleted : Tables) → o ≡ ok deleted → record t { accounts = without id t } ≡ deleted)
    → Outcome plain id t (incremented_after answers o t)
unfolding incremented_after
incremented_after-Outcome answers id t (err e) same = inl refl
incremented_after-Outcome answers id t (ok deleted) same =
    settle-plain id t deleted (increment answers.increments deleted) (same deleted refl)
      (λ after h. counted answers.increments id t deleted after (same deleted refl) h)

delete_with-Outcome :
    (answers : Answers) (c : Connection) (id : GoString) (t : Tables)
    → Outcome c id t (delete_with answers (some c) id t)
unfolding delete_with
delete_with-Outcome answers pool id t =
    elim (is_empty id)
      as (λ refused. Outcome pool id t (
        if refused
        then (err invalid_input, t)
        else if answers.begins
        then settle tt t (delete_transaction answers id t)
        else (err other, t))) [
          | true ↦ refl
          | false ↦
              elim answers.begins
                as (λ begins. Outcome pool id t (
                  if begins
                  then settle tt t (delete_transaction answers id t)
                  else (err other, t))) [
                    | true ↦
                        settle-pool id t (delete_transaction answers id t)
                          (delete_transaction-Deleted answers id t)
                    | false ↦ refl
                  ]
        ]
delete_with-Outcome answers plain id t =
    elim (is_empty id)
      as (λ refused. Outcome plain id t (
        if refused
        then (err invalid_input, t)
        else incremented_after answers (delete_account answers.writes id t) t)) [
          | true ↦ inl refl
          | false ↦
              incremented_after-Outcome answers id t (delete_account answers.writes id t)
                (delete_account-ok answers.writes id t)
        ]

deleted_ok :
    (c : Connection) (id : GoString) (t after : Tables) (u : Done)
    → Outcome c id t (ok u, after)
    → Deleted id t after
deleted_ok pool id t after u deleted = deleted
deleted_ok plain id t after u deleted = deleted

-- A deletion on a configured store, whichever of its statements fail: an error in a transaction
-- leaves the tables as they were, one without a transaction leaves them so or without the rows of
-- the trimmed id and the revision not counted, and a success deletes those rows, counts the
-- revision up by one and leaves the audit log.
pub delete-Outcome :
    (answers : Answers) (c : Connection) (k : Option Keyring) (id : GoString) (t : Tables)
    → Outcome c
        (trim_space id)
        t
        (delete answers (record { connection = some c; keyring = k }) id t)
unfolding delete
delete-Outcome answers c k id t = delete_with-Outcome answers c (trim_space id) t

-- For an order of texts, which the query lists the ids in: if a store lists `auths` and a deletion of an id succeeds, with or without a transaction, it then
-- lists exactly the credentials of `auths` with other ids, in their order, and the revision is one
-- higher.
pub list-delete :
    (sdk : Sdk) (aead : Aead) (less : GoString → GoString → Bool) (answers : Answers)
    (c : Connection) (k : Keyring) (id : GoString) (t after : Tables) (auths : List Auth)
    → IsOrder less
    → list sdk aead less (record { connection = some c; keyring = some k }) true t ≡ ok auths
    → delete answers (record { connection = some c; keyring = some k }) id t ≡ (ok tt, after)
    → Deleted (trim_space id) t after
      × (list sdk aead less (record { connection = some c; keyring = some k }) true after
          ≡ ok (filter (has_other (trim_space id)) auths))
unfolding list list_with list_accounts
list-delete sdk aead less answers c k id t after auths order listed h =
    let deleted =
      deleted_ok c (trim_space id) t after tt
        (subst (Outcome c (trim_space id) t) h (delete-Outcome answers c (some k) id t)) in
    (
      deleted,
      ap (λ rs. list_rows sdk aead k (order_by less (λ r. r.id) rs)) deleted.accounts
          ∙ ap (list_rows sdk aead k)
              (order_by-filter less (λ r. r.id) order (has_other_id (trim_space id)) t.accounts)
          ∙ list_rows-delete sdk aead k (trim_space id) (order_by less (λ r. r.id) t.accounts) auths
              listed,
    )

pub delete-counts :
    (answers : Answers) (k : Option Keyring) (id : GoString) (t after : Tables)
    → delete answers (record { connection = some pool; keyring = k }) id t ≡ (ok tt, after)
    → (n : ℕ) × (t.revision ≡ some n) × (after.revision ≡ some (n + 1))
delete-counts answers k id t after h =
    let deleted = subst (Outcome pool (trim_space id) t) h (delete-Outcome answers pool k id t) in
    (deleted.revision, deleted.was, deleted.is_now)
