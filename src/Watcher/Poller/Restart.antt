-- ===== src/Watcher/Poller/Restart.antt =====
-- The pollers of the replicas (internal/watcher/revision_poller.go) behind the writes of the
-- credential store (internal/store/coreauth_store.go).
use cliproxy_new.Base.{
  ℕ, ◌+◌, ◌≡◌, refl, ap, ◌⊎◌, inl, inr, Bool, true, false, ◌&&◌, not, Option, none, some, List, [],
  ◌∷◌, ◌++◌, is_positive, GoString, Result, ok, err, All, arith,
}
use cliproxy_new.Store.{StoreError}
use cliproxy_new.Store.OauthSessions.{AuditEntry}
use cliproxy_new.Security.Keyring.{Aead, Keyring}
use cliproxy_new.Store.CoreAuth.{Sdk, Auth}
use cliproxy_new.Store.CoreAuth.Tables.{Tables, Answers, pool, save, delete, get_revision}
use cliproxy_new.Store.CoreAuth.Transactions.{save-counts}
use cliproxy_new.Store.CoreAuth.Deletion.{delete-counts}
use cliproxy_new.Watcher.Poller.{RevisionPoller, Event, tick, shut_down, is_disabled, run}
use cliproxy_new.Watcher.Poller.Detection.{Quiet, run-Detects}

-- A write of a store on a database with transactions that succeeds.
abbrev pub Wrote : Sdk → Aead → (GoString → Bool) → Answers → Keyring → Tables → Tables → Type 0
Wrote sdk aead valid_json answers k t after =
    ((a : Auth) × (nonce : GoString) × (audit : Option AuditEntry) × (id : GoString) × (save sdk
          aead valid_json answers (record { connection = some pool; keyring = some k }) (some a)
          nonce audit t
        ≡ (ok id, after)))
    ⊎ ((id : GoString) × (delete answers (record { connection = some pool; keyring = some k }) id t
          ≡ (ok tt, after)))

-- What the poller reads of the tables, where the reader is the repository of revisions.
pub reading : Result StoreError ℕ → Option ℕ
reading (err e) = none
reading (ok n) = some n

-- Ticks at the same tables, by whether the query is answered.
pub ticks_at : Tables → List (Bool × Bool) → List Event
ticks_at t [] = []
ticks_at t ((up, elapsed) ∷ ticks) = tick (reading (get_revision up t)) elapsed ∷ ticks_at t ticks

read_revision : (t : Tables) (n : ℕ) → t.revision ≡ some n → reading (get_revision true t) ≡ some n
unfolding reading get_revision
read_revision t n h = rw h refl

ticks-Quiet :
    (t : Tables) (n : ℕ) (ticks : List (Bool × Bool))
    → t.revision ≡ some n
    → All (Quiet n) (ticks_at t ticks)
unfolding ticks_at reading get_revision
ticks-Quiet t n [] h = tt
ticks-Quiet t n ((false, elapsed) ∷ ticks) h = (tt, ticks-Quiet t n ticks h)
ticks-Quiet t n ((true, elapsed) ∷ ticks) h = (rw h refl, ticks-Quiet t n ticks h)

counted :
    (sdk : Sdk) (aead : Aead) (valid_json : GoString → Bool) (answers : Answers) (k : Keyring)
    (t after : Tables)
    → Wrote sdk aead valid_json answers k t after
    → (n : ℕ) × (t.revision ≡ some n) × (after.revision ≡ some (n + 1))
counted sdk aead valid_json answers k t after (inl (a, nonce, audit, id, h)) =
    save-counts sdk aead valid_json answers k a nonce audit t after id h
counted sdk aead valid_json answers k t after (inr (id, h)) =
    delete-counts answers (some k) id t after h

restarted :
    (p : RevisionPoller) (t after : Tables) (n : ℕ) (ticks : List (Bool × Bool)) (elapsed : Bool)
    (events : List Event)
    → is_disabled p ≡ false
    → (is_positive p.jitter && not elapsed) ≡ false
    → t.revision ≡ some n
    → after.revision ≡ some (n + 1)
    → run p
        (reading (get_revision true t))
        (ticks_at t ticks ++ tick (reading (get_revision true after)) elapsed ∷ events)
      ≡ shut_down
restarted p t after n ticks elapsed events enabled waited was is_now = (run-Detects p _ _).1 (
  enabled,
  (
    n,
    read_revision t n was,
    record {
      before = ticks_at t ticks;
      value = n + 1;
      elapsed = elapsed;
      after = events;
      events =
          ap (λ r. ticks_at t ticks ++ tick r elapsed ∷ events)
            (read_revision after (n + 1) is_now);
      quiet = ticks-Quiet t n ticks was;
      other = λ same. absurd (omega (arith, same));
      waited = waited;
    },
  ),
)

-- A replica whose poller started at some tables, and then ticked at them any number of times,
-- whether the reads were answered or not, shuts down at the first read behind a save or a deletion
-- in a transaction that succeeded, if the context is not done before the jitter ends.
pub run-restarts :
    (p : RevisionPoller) (sdk : Sdk) (aead : Aead) (valid_json : GoString → Bool)
    (answers : Answers) (k : Keyring) (t after : Tables) (ticks : List (Bool × Bool))
    (elapsed : Bool) (events : List Event)
    → is_disabled p ≡ false
    → (is_positive p.jitter && not elapsed) ≡ false
    → Wrote sdk aead valid_json answers k t after
    → run p
        (reading (get_revision true t))
        (ticks_at t ticks ++ tick (reading (get_revision true after)) elapsed ∷ events)
      ≡ shut_down
run-restarts p sdk aead valid_json answers k t after ticks elapsed events enabled waited wrote =
    let (n, was, is_now) = counted sdk aead valid_json answers k t after wrote in
    restarted p t after n ticks elapsed events enabled waited was is_now
