-- ===== src/Watcher/Poller.antt =====
-- internal/watcher/revision_poller.go: a replica shuts down once a revision is no longer what it was
-- at the start. What `select` comes to, and what the reader answers, is a list of events.
pub mod Detection
pub mod Restart
use cliproxy_new.Base.{
  ℕ, Bool, true, false, ◌&&◌, ◌||◌, not, Option, none, some, List, [], ◌∷◌, ℤ, is_positive, nat_eq,
  ◌==◌, if◌then◌else◌, GoString,
}

-- Whether there is a reader and a shutdown, and the two times.
pub record RevisionPoller : Type 0 where
  pub has_reader : Bool
  pub has_shutdown : Bool
  pub name : GoString
  pub interval : ℤ
  pub jitter : ℤ

-- The context is done, or the ticker ticks: with what is read, none if that fails, and with whether
-- a wait for the jitter would end before the context is done.
pub data Event : Type 0 where
  done : Event
  tick : Option ℕ → Bool → Event

-- `Run` still waits, returned, or called `shutdown` and returned.
pub data Progress : Type 0 where
  waiting stopped shut_down : Progress

unfoldable pub changed : RevisionPoller → Bool → Progress
changed p elapsed = if is_positive p.jitter && not elapsed then stopped else shut_down

pub poll : RevisionPoller → ℕ → List Event → Progress
poll p baseline [] = waiting
poll p baseline (done ∷ es) = stopped
poll p baseline (tick none elapsed ∷ es) = poll p baseline es
poll p baseline (tick (some value) elapsed ∷ es) =
    let rest = poll p baseline es in if value == baseline then rest else changed p elapsed

started : RevisionPoller → Option ℕ → List Event → Progress
started p none es = stopped
started p (some baseline) es = poll p baseline es

unfoldable pub is_disabled : RevisionPoller → Bool
is_disabled p = not p.has_reader || not p.has_shutdown || not (is_positive p.interval)

-- With what the reader answers at the start.
unfoldable pub run : RevisionPoller → Option ℕ → List Event → Progress
unfolding started
run p baseline es = if is_disabled p then stopped else started p baseline es
