-- ===== src/Watcher/Leader.antt =====
-- internal/watcher/leader.go: replicas that run a job one at a time, by a session-level advisory
-- lock of PostgreSQL. Every replica runs `LeaderRunner.Run`; an event is one atomic part of the
-- loop of a replica, with what the database and the context answer, or the end of a session on the
-- server. An event that does not fit the place where the replica's loop stands changes nothing.
pub mod Locks
pub mod Exclusion
use cliproxy_new.Base.{
  ℕ, zero, suc, ◌≡◌, refl, ap, ap₂, ◌↔◌, Bool, true, false, ◌&&◌, ◌||◌, not, Option, none, some,
  List, [], ◌∷◌, ℤ, is_positive, Comparable, ==_iff, nat_eq, ◌==◌, if◌then◌else◌, arith,
}

-- Whether there are a locker with a pool and a job, and the time between tries.
pub record LeaderRunner : Type 0 where
  pub has_locker : Bool
  pub has_job : Bool
  pub retry_interval : ℤ

-- A session of the server: a connection of a replica's pool.
pub record Session : Type 0 where
  pub replica : ℕ
  pub number : ℕ

abbrev pub session_beq : Session → Session → Bool
session_beq s t = s.replica == t.replica && s.number == t.number

pub session_beq_iff : (s t : Session) → (session_beq s t ≡ true) ↔ (s ≡ t)
session_beq_iff s t = ground arith

instance abbrev pub session_eq : Comparable Session
session_eq = record { equal = session_beq; equal_iff = session_beq_iff }

-- Where the loop of a replica stands: at its head, in the job with the lease of a session, in the
-- wait for the next try, or behind the loop.
pub data Phase : Type 0 where
  idle : Phase
  leading : Session → Phase
  pausing : Phase
  returned : Phase

-- The replicas, and the server's lock: the session that has it, and how many times.
pub record Cluster : Type 0 where
  pub phase : ℕ → Phase
  pub holder : Option Session
  pub count : ℕ

-- What `TryLock` comes to: no connection, a query that fails, with whether the server took the lock
-- nevertheless, or an answer, each on the connection of a number.
pub data Attempt : Type 0 where
  no_connection : Attempt
  query_fails : ℕ → Bool → Attempt
  answered : ℕ → Attempt

-- What `Release` comes to: an answer, or a failed query, with whether closing the connection ends
-- the session on the server at once.
pub data Unlock : Type 0 where
  replied : Unlock
  broken : Bool → Unlock

pub data Event : Type 0 where
  cancelled : ℕ → Event
  try_lock : ℕ → Attempt → Event
  job_ends : ℕ → Unlock → Event
  wait_ends : ℕ → Bool → Event
  lost : Session → Event

unfoldable pub at : ℕ → Phase → (ℕ → Phase) → ℕ → Phase
at i p phase j = if i == j then p else phase j

-- `pg_try_advisory_lock`: whether it is taken, and the lock behind it. A session takes it again if
-- it has it.
unfoldable pub take_lock : Session → Option Session → ℕ → Bool × Option Session × ℕ
take_lock s none count = (true, some s, 1)
take_lock s (some t) count = if t == s then (true, some t, suc count) else (false, some t, count)

-- `pg_advisory_unlock`, and the end of a session, which drops its locks.
fewer : Session → ℕ → Option Session × ℕ
fewer t zero = (none, 0)
fewer t (suc zero) = (none, 0)
fewer t (suc (suc n)) = (some t, suc n)

pub drop_lock : Session → Option Session → ℕ → Option Session × ℕ
unfolding fewer
drop_lock s none count = (none, count)
drop_lock s (some t) count = if t == s then fewer t count else (some t, count)

unfoldable pub end_session : Session → Option Session → ℕ → Option Session × ℕ
end_session s none count = (none, count)
end_session s (some t) count = if t == s then (none, 0) else (some t, count)

unfoldable pub with_lock : Cluster → ℕ → Phase → Option Session × ℕ → Cluster
with_lock c i p (holder, count) = record { phase = at i p c.phase; holder = holder; count = count }

unfoldable pub took : Cluster → ℕ → Session → Bool × Option Session × ℕ → Cluster
took c i s (true, holder, count) = with_lock c i (leading s) (holder, count)
took c i s (false, holder, count) = with_lock c i pausing (holder, count)

session_of : ℕ → ℕ → Session
session_of i number = record { replica = i; number = number }

unfoldable pub attempt : Cluster → ℕ → Attempt → Cluster
unfolding session_of
attempt c i no_connection = with_lock c i pausing (c.holder, c.count)
attempt c i (query_fails number false) = with_lock c i pausing (c.holder, c.count)
attempt c i (query_fails number true) =
    let lock = take_lock (session_of i number) c.holder c.count in
    with_lock c i pausing (lock.1, lock.2)
attempt c i (answered number) =
    took c i (session_of i number) (take_lock (session_of i number) c.holder c.count)

-- An unlock that says that the lock was not held closes the connection.
pub unlock : Session → Option Session → ℕ → Unlock → Option Session × ℕ
unlock s holder count replied = drop_lock s holder count
unlock s holder count (broken true) = end_session s holder count
unlock s holder count (broken false) = (holder, count)

pub cancelled_at : Phase → ℕ → Cluster → Cluster
cancelled_at idle i c = with_lock c i returned (c.holder, c.count)
cancelled_at (leading s) i c = c
cancelled_at pausing i c = c
cancelled_at returned i c = c

unfoldable pub tried_at : Phase → ℕ → Attempt → Cluster → Cluster
tried_at idle i a c = attempt c i a
tried_at (leading s) i a c = c
tried_at pausing i a c = c
tried_at returned i a c = c

pub released_at : Phase → ℕ → Unlock → Cluster → Cluster
released_at idle i u c = c
released_at (leading s) i u c = with_lock c i pausing (unlock s c.holder c.count u)
released_at pausing i u c = c
released_at returned i u c = c

unfoldable pub waited_at : Phase → ℕ → Bool → Cluster → Cluster
waited_at idle i elapsed c = c
waited_at (leading s) i elapsed c = c
waited_at pausing i true c = with_lock c i idle (c.holder, c.count)
waited_at pausing i false c = with_lock c i returned (c.holder, c.count)
waited_at returned i elapsed c = c

dropped : Cluster → Option Session × ℕ → Cluster
dropped c (holder, count) = record { phase = c.phase; holder = holder; count = count }

unfoldable pub step : Event → Cluster → Cluster
unfolding dropped
step (cancelled i) c = cancelled_at (c.phase i) i c
step (try_lock i a) c = tried_at (c.phase i) i a c
step (job_ends i u) c = released_at (c.phase i) i u c
step (wait_ends i elapsed) c = waited_at (c.phase i) i elapsed c
step (lost s) c = dropped c (end_session s c.holder c.count)

unfoldable pub run : List Event → Cluster → Cluster
run [] c = c
run (e ∷ es) c = run es (step e c)

-- The start of `Run`.
unfoldable pub first_phase : LeaderRunner → Phase
first_phase r =
    if not r.has_locker || not r.has_job || not (is_positive r.retry_interval)
    then returned
    else idle

unfoldable pub start : (ℕ → LeaderRunner) → Cluster
start runners = record { phase = λ i. first_phase (runners i); holder = none; count = 0 }
