-- ===== src/Store/CoreAuth/Writes.antt =====
-- The tables behind a transaction of `Save` in internal/store/coreauth_store.go, and behind a save
-- without transactions.
use cliproxy_new.Base.{
  ℕ, ◌+◌, ◌<◌, ◌^◌, ◌≡◌, refl, sym, ap, ◌∙◌, Bool, true, false, Option, none, some, List, [], ◌∷◌,
  ◌++◌, list_eq, nat_eq, ltb, ltb→lt, if◌then◌else◌, GoString, Result, ok, err, >>=_inversion,
  ok_injective,
}
use mathlib.Core.List.{append-nil}
use cliproxy_new.Store.{StoreError, invalid_input, other}
use cliproxy_new.Store.OauthSessions.{AuditEntry, is_entry}
use cliproxy_new.Store.CoreAuth.{Account}
use cliproxy_new.Store.CoreAuth.Tables.{
  Tables, Answers, upsert, upsert_account, increment, incremented, audit_save, insert_entry,
  targeted, commit, save_transaction, save_plain,
}

-- The entries that a save adds to the audit log.
abbrev pub entry_for : GoString → Option AuditEntry → List AuditEntry
entry_for id none = []
entry_for id (some e) = targeted id e ∷ []

-- What one transaction made of the tables: the account's row, the next revision and the entry.
pub record Committed (r : Account) (audit : Option AuditEntry) (t after : Tables) : Type 0 where
  pub accounts : after.accounts ≡ upsert_account r t.accounts
  pub revision : ℕ
  pub was : t.revision ≡ some revision
  pub is_now : after.revision ≡ some (revision + 1)
  pub fits : revision + 1 < 2 ^ 63
  pub log : after.audit ≡ t.audit ++ entry_for r.id audit

-- What a save without transactions made of them.
pub record Written (r : Account) (audit : Option AuditEntry) (t after : Tables) : Type 0 where
  pub accounts : after.accounts ≡ upsert_account r t.accounts
  pub revision : after.revision ≡ t.revision
  pub log : after.audit ≡ t.audit
  pub unaudited : audit ≡ none

-- A test that lets a call through.
pub passed {ℓ} :
    {A : Type ℓ} (test : Bool) (value result : A) (e : StoreError)
    → (if test then ok value else err e) ≡ ok result
    → value ≡ result
passed true value result e h = ok_injective value result h
passed false value result e h = cc

passed_test {ℓ} :
    {A : Type ℓ} (test : Bool) (o : Result StoreError A) (result : A) (e : StoreError)
    → (if test then o else err e) ≡ ok result
    → (test ≡ true) × (o ≡ ok result)
passed_test true o result e h = (refl, h)
passed_test false o result e h = cc

upsert-ok :
    (up : Bool) (r : Account) (t after : Tables)
    → upsert up r t ≡ ok after
    → record t { accounts = upsert_account r t.accounts } ≡ after
unfolding upsert
upsert-ok up r t after h =
    passed _ (record t { accounts = upsert_account r t.accounts }) after other h

incremented-ok :
    (revision : Option ℕ) (t after : Tables)
    → incremented revision t ≡ ok after
    → (n : ℕ) × (revision ≡ some n)
      × (n + 1 < 2 ^ 63)
      × (record t { revision = some (n + 1) } ≡ after)
unfolding incremented
incremented-ok none t after h = cc
incremented-ok (some n) t after h =
    let (small, same) =
      passed_test (ltb (n + 1) (2 ^ 63)) (ok (record t { revision = some (n + 1) })) after other
        h in
    (
      n,
      refl,
      ltb→lt (n + 1) (2 ^ 63) small,
      ok_injective (record t { revision = some (n + 1) }) after same,
    )

pub increment-ok :
    (up : Bool) (t after : Tables)
    → increment up t ≡ ok after
    → (n : ℕ) × (t.revision ≡ some n)
      × (n + 1 < 2 ^ 63)
      × (record t { revision = some (n + 1) } ≡ after)
unfolding increment
increment-ok up t after h =
    incremented-ok t.revision t after (passed_test up (incremented t.revision t) after other h).1

audit_save-ok :
    (valid_json : GoString → Bool) (up : Bool) (id : GoString) (audit : Option AuditEntry)
    (t after : Tables)
    → audit_save valid_json up id audit t ≡ ok after
    → record t { audit = t.audit ++ entry_for id audit } ≡ after
unfolding audit_save insert_entry
audit_save-ok valid_json up id none t after h =
    ap (λ es. record t { audit = es }) (append-nil t.audit) ∙ ok_injective t after h
audit_save-ok valid_json up id (some e) t after h =
    passed up (record t { audit = t.audit ++ targeted id e ∷ [] }) after other
      (passed_test (is_entry valid_json (targeted id e)) _ after invalid_input h).1

pub commit-ok : (up : Bool) (t after : Tables) → commit up t ≡ ok after → t ≡ after
unfolding commit
commit-ok up t after h = passed up t after other h

pub save_transaction-Committed :
    (valid_json : GoString → Bool) (answers : Answers) (r : Account) (audit : Option AuditEntry)
    (t after : Tables)
    → save_transaction valid_json answers r audit t ≡ ok after
    → Committed r audit t after
unfolding save_transaction
save_transaction-Committed valid_json answers r audit t after h =
    let (t3, h3, c) = >>=_inversion _ (commit answers.commits) h in
    let (t2, h2, b) = >>=_inversion _ (audit_save valid_json answers.audits r.id audit) h3 in
    let (t1, a, i) = >>=_inversion (upsert answers.writes r t) (increment answers.increments) h2 in
    let e1 = upsert-ok answers.writes r t t1 a in
    let (n, was, fits, e2) = increment-ok answers.increments t1 t2 i in
    let e3 = audit_save-ok valid_json answers.audits r.id audit t2 t3 b in
    let e4 = commit-ok answers.commits t3 after c in
    let accounts = λ (x : Tables). x.accounts in
    let log = λ (x : Tables). x.audit in
    let revision_of = λ (x : Tables). x.revision in
    record {
      accounts =
          ap accounts (sym e4) ∙ ap accounts (sym e3) ∙ ap accounts (sym e2) ∙ ap accounts (sym e1);
      revision = n;
      was = ap revision_of e1 ∙ was;
      is_now = ap revision_of (sym e4) ∙ ap revision_of (sym e3) ∙ ap revision_of (sym e2);
      fits = fits;
      log =
          ap log (sym e4)
          ∙ ap log (sym e3)
          ∙ ap (λ x. log x ++ entry_for r.id audit) (sym e2)
          ∙ ap (λ x. log x ++ entry_for r.id audit) (sym e1);
    }

pub save_plain-Written :
    (valid_json : GoString → Bool) (answers : Answers) (r : Account) (audit : Option AuditEntry)
    (t after : Tables)
    → save_plain valid_json answers r audit t ≡ ok after
    → Written r audit t after
unfolding save_plain
save_plain-Written valid_json answers r none t after h =
    let same = sym (upsert-ok answers.writes r t after h) in
    record {
      accounts = ap (λ x. x.accounts) same;
      revision = ap (λ x. x.revision) same;
      log = ap (λ x. x.audit) same;
      unaudited = refl;
    }
save_plain-Written valid_json answers r (some e) t after h = cc
