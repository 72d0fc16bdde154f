-- ===== src/Store/CoreAuth/Transactions.antt =====
-- The transactions of `Save` in internal/store/coreauth_store.go.
use cliproxy_new.Base.{
  ℕ, ◌+◌, ◌≡◌, refl, subst, Bool, true, false, ◌||◌, Option, some, is_empty, list_eq, nat_eq,
  if◌then◌else◌, GoString, trim_space, Result, ok, err,
}
use cliproxy_new.Store.{StoreError, invalid_input, other}
use cliproxy_new.Store.OauthSessions.{AuditEntry}
use cliproxy_new.Security.Keyring.{Aead, Keyring}
use cliproxy_new.Store.CoreAuth.{Sdk, Auth, Account, account_of}
use cliproxy_new.Store.CoreAuth.Tables.{
  Tables, Answers, Connection, pool, plain, upsert_account, settle, save_transaction, save_plain,
  save_account, save_encoded, save_with, save,
}
use cliproxy_new.Store.CoreAuth.Writes.{
  Committed, Written, save_transaction-Committed, save_plain-Written,
}

-- What a save came to: on an error the tables are what they were, and otherwise all of it is done.
abbrev pub Saved :
    Connection → Account → Option AuditEntry → Tables → Result StoreError GoString × Tables → Type 0
Saved c r audit t (err e, after) = after ≡ t
Saved pool r audit t (ok id, after) = (id ≡ r.id) × Committed r audit t after
Saved plain r audit t (ok id, after) = (id ≡ r.id) × Written r audit t after

settle-pool :
    (r : Account) (audit : Option AuditEntry) (t : Tables) (o : Result StoreError Tables)
    → ((after : Tables) → o ≡ ok after → Committed r audit t after)
    → Saved pool r audit t (settle r.id t o)
unfolding settle
settle-pool r audit t (err e) committed = refl
settle-pool r audit t (ok after) committed = (refl, committed after refl)

settle-plain :
    (r : Account) (audit : Option AuditEntry) (t : Tables) (o : Result StoreError Tables)
    → ((after : Tables) → o ≡ ok after → Written r audit t after)
    → Saved plain r audit t (settle r.id t o)
unfolding settle
settle-plain r audit t (err e) done = refl
settle-plain r audit t (ok after) done = (refl, done after refl)

save_account-Saved :
    (valid_json : GoString → Bool) (answers : Answers) (c : Connection) (r : Account)
    (audit : Option AuditEntry) (t : Tables)
    → Saved c r audit t (save_account valid_json answers c r audit t)
unfolding save_account
save_account-Saved valid_json answers pool r audit t =
    elim answers.begins
      as (λ begins. Saved pool r audit t (
        if begins
        then settle r.id t (save_transaction valid_json answers r audit t)
        else (err other, t))) [
          | true ↦
              settle-pool r audit t (save_transaction valid_json answers r audit t)
                (save_transaction-Committed valid_json answers r audit t)
          | false ↦ refl
        ]
save_account-Saved valid_json answers plain r audit t =
    settle-plain r audit t (save_plain valid_json answers r audit t)
      (save_plain-Written valid_json answers r audit t)

-- The tables before a save of `a`, what it answered and the tables behind it.
pub Outcome :
    Result StoreError Account
    → Connection
    → Option AuditEntry
    → Tables
    → Result StoreError GoString × Tables
    → Type 0
Outcome row c audit t (err e, after) = after ≡ t
Outcome row c audit t (ok id, after) =
    (r : Account) × (row ≡ ok r) × Saved c r audit t (ok id, after)

Saved-Outcome :
    (c : Connection) (r : Account) (audit : Option AuditEntry) (t : Tables)
    (o : Result StoreError GoString × Tables)
    → Saved c r audit t o
    → Outcome (ok r) c audit t o
unfolding Outcome
Saved-Outcome c r audit t (err e, after) saved = saved
Saved-Outcome c r audit t (ok id, after) saved = (r, refl, saved)

save_encoded-Outcome :
    (valid_json : GoString → Bool) (answers : Answers) (c : Connection)
    (row : Result StoreError Account) (audit : Option AuditEntry) (t : Tables)
    → Outcome row c audit t (save_encoded valid_json answers c row audit t)
unfolding save_encoded Outcome
save_encoded-Outcome valid_json answers c (err e) audit t = refl
save_encoded-Outcome valid_json answers c (ok r) audit t =
    Saved-Outcome c r audit t (save_account valid_json answers c r audit t)
      (save_account-Saved valid_json answers c r audit t)

guarded :
    (refused : Bool) (row : Result StoreError Account) (c : Connection) (audit : Option AuditEntry)
    (t : Tables) (o : Result StoreError GoString × Tables)
    → Outcome row c audit t o
    → Outcome row c audit t (if refused then (err invalid_input, t) else o)
unfolding Outcome
guarded true row c audit t o outcome = refl
guarded false row c audit t o outcome = outcome

-- A save of a configured store, whichever of its statements fail. If it answers an error, the
-- tables are what they were. If it answers an id, that is the id of the row which the credential
-- encodes to, and that row is in the table; on a database with transactions the revision is one
-- higher and the context's audit entry, with that id as its target, is the only new one, and on one
-- without them the context had no entry and the revision and the log are unchanged.
pub save-Outcome :
    (sdk : Sdk) (aead : Aead) (valid_json : GoString → Bool) (answers : Answers) (c : Connection)
    (k : Keyring) (a : Auth) (nonce : GoString) (audit : Option AuditEntry) (t : Tables)
    → Outcome (account_of sdk aead k nonce a) c audit t (
        save sdk aead valid_json answers
          (record { connection = some c; keyring = some k })
          (some a)
          nonce
          audit
          t)
unfolding save save_with
save-Outcome sdk aead valid_json answers c k a nonce audit t =
    guarded (is_empty (trim_space a.id) || is_empty (trim_space a.provider))
      (account_of sdk aead k nonce a) c audit t _
      (save_encoded-Outcome valid_json answers c (account_of sdk aead k nonce a) audit t)

Saved-accounts :
    (c : Connection) (r : Account) (audit : Option AuditEntry) (t after : Tables) (id : GoString)
    → Saved c r audit t (ok id, after)
    → after.accounts ≡ upsert_account r t.accounts
Saved-accounts pool r audit t after id saved = saved.1.accounts
Saved-accounts plain r audit t after id saved = saved.1.accounts

-- The row behind a save that succeeds.
pub saved_row :
    (row : Result StoreError Account) (c : Connection) (audit : Option AuditEntry)
    (t after : Tables) (id : GoString) (o : Result StoreError GoString × Tables)
    → Outcome row c audit t o
    → o ≡ (ok id, after)
    → (r : Account) × (row ≡ ok r) × (after.accounts ≡ upsert_account r t.accounts)
unfolding Outcome
saved_row row c audit t after id o outcome h =
    let (r, e, saved) = subst (Outcome row c audit t) h outcome in
    (r, e, Saved-accounts c r audit t after id saved)

-- In a transaction the revision is counted.
pub save-counts :
    (sdk : Sdk) (aead : Aead) (valid_json : GoString → Bool) (answers : Answers) (k : Keyring)
    (a : Auth) (nonce : GoString) (audit : Option AuditEntry) (t after : Tables) (id : GoString)
    → save sdk aead valid_json answers
        (record { connection = some pool; keyring = some k })
        (some a)
        nonce
        audit
        t
      ≡ (ok id, after)
    → (n : ℕ) × (t.revision ≡ some n) × (after.revision ≡ some (n + 1))
unfolding Outcome
save-counts sdk aead valid_json answers k a nonce audit t after id h =
    let (r, e, saved) =
      subst (Outcome (account_of sdk aead k nonce a) pool audit t) h
        (save-Outcome sdk aead valid_json answers pool k a nonce audit t) in
    (saved.1.revision, saved.1.was, saved.1.is_now)
