-- ===== src/Tests/Watchers.antt =====
-- Runs of internal/watcher.
use cliproxy_new.Base.{
  ℕ, ◌≡◌, refl, ◌⊎◌, inl, true, false, some, List, [], ◌∷◌, ◌++◌, pos, nat_eq, bytes,
}
use cliproxy_new.Watcher.Leader as Leader
use cliproxy_new.Watcher.Leader.{
  LeaderRunner, Session, session_eq, leading, answered, replied, try_lock, job_ends, wait_ends,
  lost,
}
use cliproxy_new.Watcher.Leader.Exclusion.{Lost, run-Exclusive}
use cliproxy_new.Watcher.Poller as Poller
use cliproxy_new.Watcher.Poller.{RevisionPoller, shut_down, tick, is_disabled}
use cliproxy_new.Watcher.Poller.Restart.{reading, ticks_at, run-restarts}
use cliproxy_new.Store.CoreAuth.Tables.{get_revision}
use cliproxy_new.Tests.Credentials.{
  sdk, all_up, no_rows, one_row, given, import_entry, given_is_saved,
}
use cliproxy_new.Tests.Keyrings.{toy, first_ring}

abbrev runner : LeaderRunner
runner = record { has_locker = true; has_job = true; retry_interval = pos 5 }

abbrev session : ℕ → Session
session i = record { replica = i; number = 0 }

-- The first replica leads, the second does not get the lock, the first one's session ends while its
-- job runs, and the second leads.
abbrev takeover : List Leader.Event
takeover =
    try_lock 0 (answered 0)
    ∷ try_lock 1 (answered 0)
    ∷ wait_ends 1 true
    ∷ lost (session 0)
    ∷ try_lock 1 (answered 0)
    ∷ []

run-Exclusive_example : ◌≡◌ {A = ℕ} 0 1 ⊎ Lost (session 0) takeover ⊎ Lost (session 1) takeover
unfolding Leader.run Leader.step Leader.start Leader.first_phase Leader.at Leader.take_lock
    Leader.took Leader.with_lock Leader.attempt Leader.tried_at Leader.waited_at Leader.end_session
run-Exclusive_example = run-Exclusive (λ i. runner) takeover 0 1 (session 0) (session 1) refl refl

abbrev poller : RevisionPoller
poller = record {
  has_reader = true;
  has_shutdown = true;
  name = bytes "upstream_accounts";
  interval = pos 10;
  jitter = pos 3;
}

run-restarts_example :
    Poller.run poller (reading (get_revision true no_rows)) (
      ticks_at no_rows ((true, true) ∷ (false, true) ∷ [])
      ++ tick (reading (get_revision true one_row)) true ∷ [])
    ≡ shut_down
unfolding is_disabled
run-restarts_example =
    run-restarts poller sdk toy (λ s. true) all_up first_ring no_rows one_row
      ((true, true) ∷ (false, true) ∷ []) true [] refl refl
      (inl (given, 3 ∷ 4 ∷ [], some import_entry, bytes "key-1", given_is_saved))
