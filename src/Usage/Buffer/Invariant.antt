-- ===== src/Usage/Buffer/Invariant.antt =====
-- Orderings of the parts of internal/usage/buffered_plugin.go, and the events that they hold.
use mathlib.Core.List.{append_assoc, append-nil}
use cliproxy_new.Base.{
  ◌≡◌, refl, sym, ap, ◌∙◌, Bool, true, false, Option, none, some, List, [], ◌∷◌, ◌++◌, length, ltb,
  if◌then◌else◌, ◌==◌, nat_eq, Result, ok, err, Bool-cases, inl, inr,
}
use cliproxy_new.Access.Principal.{Invalid}
use cliproxy_new.Usage.{Record, UsageEvent, usage_event_from_record}
use cliproxy_new.Usage.Buffer.{
  BufferedPlugin, Write, Writer, is_nil, new_buffered_plugin, offer, admit, handle_event,
  handle_usage, close, flush_batch, flush, append_event, end_of_queue, receive_from, receive, tick,
  write_of, queue_capacity, batch_size,
}

-- A part that runs; the flag is what `InsertBatch` returns, should the part flush.
pub data Action : Type 0 where
  handles : Record → Action
  receives ticks : Bool → Action
  closes : Action

unfoldable pub step : BufferedPlugin → Action → BufferedPlugin
step p (handles r) = handle_usage p r
step p (receives stored) = receive p stored
step p (ticks stored) = tick p stored
step p closes = close p

unfoldable pub run : BufferedPlugin → List Action → BufferedPlugin
run p [] = p
run p (a ∷ acts) = run (step p a) acts

-- The events of all writes.
pub written : List Write → List UsageEvent
written [] = []
written (w ∷ ws) = w.events ++ written ws

-- What the plugin has taken: written, in the batch and in the queue, oldest first.
unfoldable pub contents : BufferedPlugin → List UsageEvent
contents p = written p.writes ++ (p.batch ++ p.queue)

-- The event that an action adds: a record with a valid principal, while the plugin is open and the
-- queue has room.
fitting : BufferedPlugin → Bool → UsageEvent → List UsageEvent
fitting p true event = []
fitting p false event = if ltb (length p.queue) queue_capacity then event ∷ [] else []

taken_event : BufferedPlugin → Result Invalid UsageEvent → List UsageEvent
unfolding fitting
taken_event p (err e) = []
taken_event p (ok event) = fitting p p.closed event

pub taken : BufferedPlugin → Action → List UsageEvent
unfolding taken_event
taken p (handles r) = if is_nil p.writer then [] else taken_event p (usage_event_from_record r)
taken p (receives stored) = []
taken p (ticks stored) = []
taken p closes = []

pub taken_all : BufferedPlugin → List Action → List UsageEvent
taken_all p [] = []
taken_all p (a ∷ acts) = taken p a ++ taken_all (step p a) acts

written-append : (ws : List Write) (w : Write) → written (ws ++ w ∷ []) ≡ written ws ++ w.events
unfolding written
written-append [] w = append-nil w.events
written-append (v ∷ ws) w =
    ap (◌++◌ v.events) (written-append ws w) ∙ sym (append_assoc v.events (written ws) w.events)

write_of-events :
    (w : Option Writer) (es : List UsageEvent) (stored : Bool) → (write_of w es stored).events ≡ es
unfolding write_of
write_of-events none es stored = refl
write_of-events (some w) es stored = refl

contents_done : (p : BufferedPlugin) → contents (record p { done = true }) ≡ contents p
unfolding contents
contents_done p = refl

pub closed_same : (p : BufferedPlugin) → contents (record p { closed = true }) ≡ contents p
unfolding contents
closed_same p = refl

flush_batch-contents :
    (p : BufferedPlugin) (es : List UsageEvent) (stored : Bool)
    → p.batch ≡ es
    → contents (flush_batch p es stored) ≡ contents p
unfolding flush_batch contents
flush_batch-contents p [] stored e = refl
flush_batch-contents p (x ∷ es) stored e = rw (
  written-append p.writes (write_of p.writer (x ∷ es) stored),
  write_of-events p.writer (x ∷ es) stored,
  append_assoc,
  e,
)

flush-contents : (p : BufferedPlugin) (stored : Bool) → contents (flush p stored) ≡ contents p
unfolding flush
flush-contents p stored = flush_batch-contents p p.batch stored refl

append_event-contents :
    (p : BufferedPlugin) (batch : List UsageEvent) (stored : Bool)
    → contents (append_event p batch stored) ≡ contents (record p { batch = batch })
unfolding append_event
append_event-contents p batch stored = elim (Bool-cases (length batch == batch_size)) [
  | inl full ↦ rw full (flush-contents (record p { batch = batch }) stored)
  | inr room ↦ rw room refl
]

end_of_queue-contents :
    (p : BufferedPlugin) (closed stored : Bool)
    → contents (end_of_queue p closed stored) ≡ contents p
unfolding end_of_queue
end_of_queue-contents p true stored = contents_done (flush p stored) ∙ flush-contents p stored
end_of_queue-contents p false stored = refl

-- An event that goes from the queue to the batch.
contents-move :
    (p : BufferedPlugin) (event : UsageEvent) (rest : List UsageEvent)
    → p.queue ≡ event ∷ rest
    → contents (record p { queue = rest; batch = p.batch ++ event ∷ [] }) ≡ contents p
unfolding contents
contents-move p event rest e = rw (e, append_assoc p.batch (event ∷ []) rest)

receive_from-contents :
    (p : BufferedPlugin) (queue : List UsageEvent) (stored : Bool)
    → p.queue ≡ queue
    → contents (receive_from p queue stored) ≡ contents p
unfolding receive_from
receive_from-contents p [] stored e = end_of_queue-contents p p.closed stored
receive_from-contents p (event ∷ rest) stored e =
    append_event-contents (record p { queue = rest }) (p.batch ++ event ∷ []) stored
    ∙ contents-move p event rest e

pub receive-contents :
    (p : BufferedPlugin) (stored : Bool) → contents (receive p stored) ≡ contents p
unfolding receive
receive-contents p stored = elim (Bool-cases p.done) [
  | inl over ↦ simp over refl
  | inr running ↦ simp running (receive_from-contents p p.queue stored refl)
]

tick-contents : (p : BufferedPlugin) (stored : Bool) → contents (tick p stored) ≡ contents p
unfolding tick
tick-contents p stored = elim (Bool-cases p.done) [
  | inl over ↦ simp over refl
  | inr running ↦ simp running (flush-contents p stored)
]

contents-push :
    (p : BufferedPlugin) (event : UsageEvent)
    → contents (record p { queue = p.queue ++ event ∷ [] }) ≡ contents p ++ event ∷ []
unfolding contents
contents-push p event = simp append_assoc

offer-contents :
    (p : BufferedPlugin) (event : UsageEvent)
    → contents (offer p event)
      ≡ contents p ++ (if ltb (length p.queue) queue_capacity then event ∷ [] else [])
unfolding offer
offer-contents p event = elim (Bool-cases (ltb (length p.queue) queue_capacity)) [
  | inl room ↦ simp room (contents-push p event)
  | inr full ↦ simp full (sym (append-nil (contents p)))
]

admit-contents :
    (p : BufferedPlugin) (closed : Bool) (event : UsageEvent)
    → contents (admit p closed event) ≡ contents p ++ fitting p closed event
unfolding admit fitting
admit-contents p true event = sym (append-nil (contents p))
admit-contents p false event = offer-contents p event

handle_event-contents :
    (p : BufferedPlugin) (e : Result Invalid UsageEvent)
    → contents (handle_event p e) ≡ contents p ++ taken_event p e
unfolding handle_event taken_event
handle_event-contents p (err e) = sym (append-nil (contents p))
handle_event-contents p (ok event) = admit-contents p p.closed event

-- One part of the plugin, whatever it is and however its write ends, adds to the contents exactly
-- the event that it takes.
step-contents : (p : BufferedPlugin) (a : Action) → contents (step p a) ≡ contents p ++ taken p a
unfolding step taken handle_usage close
step-contents p (handles r) = elim (Bool-cases (is_nil p.writer)) [
  | inl nil ↦ simp nil (sym (append-nil (contents p)))
  | inr some_writer ↦ simp some_writer (handle_event-contents p (usage_event_from_record r))
]
step-contents p (receives stored) = receive-contents p stored ∙ sym (append-nil (contents p))
step-contents p (ticks stored) = tick-contents p stored ∙ sym (append-nil (contents p))
step-contents p closes = closed_same p ∙ sym (append-nil (contents p))

-- Whatever the interleaving of callers, writer, ticks and `Close`, and whichever writes fail: the
-- events that were handed to the writer, then those of the batch, then those of the queue are
-- exactly the events that were taken, each once and in the order in which they came.
pub run-contents :
    (p : BufferedPlugin) (acts : List Action)
    → contents (run p acts) ≡ contents p ++ taken_all p acts
unfolding run taken_all
run-contents p [] = sym (append-nil (contents p))
run-contents p (a ∷ acts) =
    run-contents (step p a) acts
    ∙ ap (λ es. es ++ taken_all (step p a) acts) (step-contents p a)
    ∙ append_assoc (contents p) (taken p a) (taken_all (step p a) acts)

pub contents-new : (w : Option Writer) → contents (new_buffered_plugin w) ≡ []
unfolding contents new_buffered_plugin written
contents-new w = refl
