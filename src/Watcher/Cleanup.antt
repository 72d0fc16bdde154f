-- ===== src/Watcher/Cleanup.antt =====
-- internal/watcher/session_cleanup.go: expired sessions are deleted at once, and then at every tick
-- until the context is done. What `select` comes to is a list of events; errors are only logged.
use cliproxy_new.Base.{Bool, ◌||◌, not, List, [], ◌∷◌, ℤ, is_positive, if◌then◌else◌, GoString}
use cliproxy_new.Store.Sessions.{SessionQueries, delete_expired}

-- Whether there is a cleaner, and the interval.
pub record SessionCleanup : Type 0 where
  pub has_cleaner : Bool
  pub interval : ℤ

pub data Event : Type 0 where
  done tick : Event

module _ {D : Type 0} (hash_session_token : GoString → GoString) (q : SessionQueries D) where
  pub cleanup : D → D
  cleanup d = (delete_expired hash_session_token q d).1

  unfoldable pub cleanup_at : List Event → D → D
  unfolding cleanup
  cleanup_at [] d = d
  cleanup_at (done ∷ es) d = d
  cleanup_at (tick ∷ es) d = cleanup_at es (cleanup d)

  unfoldable pub run : SessionCleanup → List Event → D → D
  run c es d =
      if not c.has_cleaner || not (is_positive c.interval) then d else cleanup_at es (cleanup d)
