-- ===== src/Usage/Buffer.antt =====
-- internal/usage/buffered_plugin.go: a bounded queue between the callers and one writer goroutine.
-- The goroutines interleave at the queue, so the plugin is one state with a function for each
-- atomic part: a caller's `HandleUsage`, the writer's two cases of `select`, and `Close`.
pub mod Invariant
pub mod Receives
pub mod Drain
pub mod Bounds
use cliproxy_new.Base.{
  ℕ, ◌≡◌, Bool, true, false, ◌&&◌, Option, none, some, List, [], ◌∷◌, ◌++◌, ℤ, length, ltb,
  if◌then◌else◌, ◌==◌, nat_eq, Result, ok, err,
}
use cliproxy_new.Access.Principal.{Invalid}
use cliproxy_new.Usage.{Record, UsageEvent, usage_event_from_record}
use cliproxy_new.Usage.KeyIds.{api_key_ids}

abbrev pub queue_capacity : ℕ
queue_capacity = 1024

abbrev pub batch_size : ℕ
batch_size = 100

-- A write that was tried: its events, whether it was stored, and the key IDs handed to
-- `TouchAPIKeysLastUsed`, if that was called.
pub record Write : Type 0 where
  pub events : List UsageEvent
  pub stored : Bool
  pub touched : Option (List ℤ)

-- The writer, if there is one: whether it is an `APIKeyLastUsedUpdater` too.
pub record Writer : Type 0 where
  pub is_updater : Bool

-- `writes` is what the writer has been asked for, oldest first.
pub record BufferedPlugin : Type 0 where
  pub writer : Option Writer
  pub queue : List UsageEvent
  pub closed : Bool
  pub batch : List UsageEvent
  pub done : Bool
  pub writes : List Write

is_nil : Option Writer → Bool
is_nil none = true
is_nil (some w) = false

-- Without a writer no goroutine is started, and the plugin is done at once.
unfoldable pub new_buffered_plugin : Option Writer → BufferedPlugin
unfolding is_nil
new_buffered_plugin writer = record {
  writer = writer;
  queue = [];
  closed = false;
  batch = [];
  done = is_nil writer;
  writes = [];
}

-- `select` with a default: the queue takes the event if it has room.
offer : BufferedPlugin → UsageEvent → BufferedPlugin
offer p event =
    if ltb (length p.queue) queue_capacity then record p { queue = p.queue ++ event ∷ [] } else p

admit : BufferedPlugin → Bool → UsageEvent → BufferedPlugin
unfolding offer
admit p true event = p
admit p false event = offer p event

handle_event : BufferedPlugin → Result Invalid UsageEvent → BufferedPlugin
unfolding admit
handle_event p (err e) = p
handle_event p (ok event) = admit p p.closed event

unfoldable pub handle_usage : BufferedPlugin → Record → BufferedPlugin
unfolding handle_event is_nil
handle_usage p r = if is_nil p.writer then p else handle_event p (usage_event_from_record r)

-- `Close`, but for the wait on `done`: it is done once.
pub close : BufferedPlugin → BufferedPlugin
close p = record p { closed = true }

unfoldable pub queue_depth : BufferedPlugin → ℕ
queue_depth p = length p.queue

-- The write of a batch, by whether `InsertBatch` succeeds: only then are the keys touched, by a
-- writer that can.
pub write_of : Option Writer → List UsageEvent → Bool → Write
write_of none batch stored = record { events = batch; stored = stored; touched = none }
write_of (some w) batch stored = record {
  events = batch;
  stored = stored;
  touched = if stored && w.is_updater then some (api_key_ids batch) else none;
}

pub flush_batch : BufferedPlugin → List UsageEvent → Bool → BufferedPlugin
unfolding write_of
flush_batch p [] stored = p
flush_batch p (e ∷ es) stored = record p {
  batch = [];
  writes = p.writes ++ write_of p.writer (e ∷ es) stored ∷ [];
}

unfoldable pub flush : BufferedPlugin → Bool → BufferedPlugin
unfolding flush_batch
flush p stored = flush_batch p p.batch stored

append_event : BufferedPlugin → List UsageEvent → Bool → BufferedPlugin
unfolding flush
append_event p batch stored =
    if length batch == batch_size
    then flush (record p { batch = batch }) stored
    else record p { batch = batch }

-- The writer's receive: the oldest event, or the end of a queue that is closed and empty.
end_of_queue : BufferedPlugin → Bool → Bool → BufferedPlugin
end_of_queue p true stored = record (flush p stored) { done = true }
end_of_queue p false stored = p

pub receive_from : BufferedPlugin → List UsageEvent → Bool → BufferedPlugin
unfolding append_event end_of_queue
receive_from p [] stored = end_of_queue p p.closed stored
receive_from p (event ∷ rest) stored =
    append_event (record p { queue = rest }) (p.batch ++ event ∷ []) stored

unfoldable pub receive : BufferedPlugin → Bool → BufferedPlugin
unfolding receive_from
receive p stored = if p.done then p else receive_from p p.queue stored

-- The writer's tick.
unfoldable pub tick : BufferedPlugin → Bool → BufferedPlugin
tick p stored = if p.done then p else flush p stored
