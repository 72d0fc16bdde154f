-- ===== src/Usage/Buffer/Bounds.antt =====
-- internal/usage/buffered_plugin.go: the sizes of the queue, of the writer's batch and of the batches that are written.
use cliproxy_new.Base.{
  ℕ, ◌≤◌, ◌<◌, ◌≡◌, refl, sym, subst, Bool, true, false, Option, none, some, List, [], ◌∷◌, ◌++◌,
  length, length-append, ltb, ltb→lt, ◌==◌, nat_eq, All, Result, ok, err, arith, Bool-cases, inl,
  inr,
}
use cliproxy_new.Access.Principal.{Invalid}
use cliproxy_new.Usage.{UsageEvent, usage_event_from_record}
use cliproxy_new.Usage.Buffer.{
  BufferedPlugin, Write, Writer, is_nil, new_buffered_plugin, offer, admit, handle_event,
  handle_usage, close, write_of, flush_batch, flush, append_event, end_of_queue, receive_from,
  receive, tick, queue_capacity, batch_size,
}
use cliproxy_new.Usage.Buffer.Invariant.{Action, handles, receives, ticks, closes, step, run}

-- A write has from 1 to 100 events.
Sized : Write → Type 0
Sized w = (1 ≤ length w.events) × (length w.events ≤ 100)

-- At most 1024 events wait in the queue, fewer than 100 in the batch, and every write is `Sized`.
pub Bounded : BufferedPlugin → Type 0
unfolding Sized
Bounded p = (length p.queue ≤ 1024) × (length p.batch < 100) × All Sized p.writes

-- What a batch that is about to be flushed may have.
Pending : BufferedPlugin → Type 0
Pending p = (length p.queue ≤ 1024) × (length p.batch ≤ 100) × All Sized p.writes

All-snoc : (ws : List Write) (w : Write) → All Sized ws → Sized w → All Sized (ws ++ w ∷ [])
All-snoc [] w all b = (b, tt)
All-snoc (v ∷ ws) w all b = (all.0, All-snoc ws w all.1 b)

write_of-Sized :
    (w : Option Writer) (e : UsageEvent) (es : List UsageEvent) (stored : Bool)
    → length (e ∷ es) ≤ 100
    → Sized (write_of w (e ∷ es) stored)
unfolding Sized write_of
write_of-Sized none e es stored b = (omega arith, b)
write_of-Sized (some w) e es stored b = (omega arith, b)

flush_batch-Bounded :
    (p : BufferedPlugin) (es : List UsageEvent) (stored : Bool)
    → p.batch ≡ es
    → Pending p
    → Bounded (flush_batch p es stored)
unfolding flush_batch Bounded Pending
flush_batch-Bounded p [] stored e b =
    (b.0, subst (λ es. length es < 100) (sym e) (omega arith), b.2)
flush_batch-Bounded p (x ∷ es) stored e b = (
  b.0,
  omega arith,
  All-snoc p.writes (write_of p.writer (x ∷ es) stored) b.2
      (write_of-Sized p.writer x es stored (subst (λ xs. length xs ≤ 100) e b.1)),
)

Bounded→Pending : (p : BufferedPlugin) → Bounded p → Pending p
unfolding Bounded Pending
Bounded→Pending p b = (b.0, omega (arith, b.1), b.2)

flush-Bounded : (p : BufferedPlugin) (stored : Bool) → Pending p → Bounded (flush p stored)
unfolding flush
flush-Bounded p stored b = flush_batch-Bounded p p.batch stored refl b

full_or_room : (n : ℕ) → n ≤ 100 → (n == 100) ≡ false → n < 100
full_or_room n b e = ground arith

append_event-Bounded :
    (p : BufferedPlugin) (batch : List UsageEvent) (stored : Bool)
    → length p.queue ≤ 1024
    → length batch ≤ 100
    → All Sized p.writes
    → Bounded (append_event p batch stored)
unfolding append_event Bounded Pending
append_event-Bounded p batch stored q b w = elim (Bool-cases (length batch == batch_size)) [
  | inl full ↦ rw full (flush-Bounded (record p { batch = batch }) stored (q, b, w))
  | inr room ↦ rw room (q, full_or_room (length batch) b room, w)
]

end_of_queue-Bounded :
    (p : BufferedPlugin) (closed stored : Bool) → Bounded p → Bounded (end_of_queue p closed stored)
unfolding end_of_queue Bounded
end_of_queue-Bounded p true stored b = flush-Bounded p stored (Bounded→Pending p b)
end_of_queue-Bounded p false stored b = b

receive_from-Bounded :
    (p : BufferedPlugin) (queue : List UsageEvent) (stored : Bool)
    → p.queue ≡ queue
    → Bounded p
    → Bounded (receive_from p queue stored)
unfolding receive_from Bounded
receive_from-Bounded p [] stored e b = end_of_queue-Bounded p p.closed stored b
receive_from-Bounded p (event ∷ rest) stored e b =
    let more = subst (λ q. length q ≤ 1024) e b.0 in
    let grown = length-append p.batch (event ∷ []) in
    append_event-Bounded (record p { queue = rest }) (p.batch ++ event ∷ []) stored
      (omega (arith, more)) (omega (arith, grown, b.1)) b.2

receive-Bounded : (p : BufferedPlugin) (stored : Bool) → Bounded p → Bounded (receive p stored)
unfolding receive
receive-Bounded p stored b = elim (Bool-cases p.done) [
  | inl over ↦ simp over b
  | inr running ↦ simp running (receive_from-Bounded p p.queue stored refl b)
]

tick-Bounded : (p : BufferedPlugin) (stored : Bool) → Bounded p → Bounded (tick p stored)
unfolding tick
tick-Bounded p stored b = elim (Bool-cases p.done) [
  | inl over ↦ simp over b
  | inr running ↦ simp running (flush-Bounded p stored (Bounded→Pending p b))
]

offer-Bounded : (p : BufferedPlugin) (event : UsageEvent) → Bounded p → Bounded (offer p event)
unfolding offer Bounded
offer-Bounded p event b = elim (Bool-cases (ltb (length p.queue) queue_capacity)) [
  | inl room ↦ rw room (
    omega (arith, length-append p.queue (event ∷ []), ltb→lt (length p.queue) 1024 room),
    b.1,
    b.2,
  )
  | inr full ↦ rw full b
]

admit-Bounded :
    (p : BufferedPlugin) (closed : Bool) (event : UsageEvent)
    → Bounded p
    → Bounded (admit p closed event)
unfolding admit
admit-Bounded p true event b = b
admit-Bounded p false event b = offer-Bounded p event b

handle_event-Bounded :
    (p : BufferedPlugin) (r : Result Invalid UsageEvent) → Bounded p → Bounded (handle_event p r)
unfolding handle_event
handle_event-Bounded p (err e) b = b
handle_event-Bounded p (ok event) b = admit-Bounded p p.closed event b

step-Bounded : (p : BufferedPlugin) (a : Action) → Bounded p → Bounded (step p a)
unfolding step handle_usage close Bounded
step-Bounded p (handles r) b = elim (Bool-cases (is_nil p.writer)) [
  | inl nil ↦ simp nil b
  | inr live ↦ simp live (handle_event-Bounded p (usage_event_from_record r) b)
]
step-Bounded p (receives stored) b = receive-Bounded p stored b
step-Bounded p (ticks stored) b = tick-Bounded p stored b
step-Bounded p closes b = b

-- From a plugin that is `Bounded`, whatever the interleaving and whichever writes fail: the queue
-- never has more than 1024 events, the batch stays under 100, and every write has from 1 to 100.
pub run-Bounded : (p : BufferedPlugin) (acts : List Action) → Bounded p → Bounded (run p acts)
unfolding run
run-Bounded p [] b = b
run-Bounded p (a ∷ acts) b = run-Bounded (step p a) acts (step-Bounded p a b)

pub new-Bounded : (w : Option Writer) → Bounded (new_buffered_plugin w)
unfolding Bounded new_buffered_plugin
new-Bounded w = (omega arith, omega arith, tt)
