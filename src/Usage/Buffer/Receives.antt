-- ===== src/Usage/Buffer/Receives.antt =====
-- The receives of the writer of internal/usage/buffered_plugin.go after its queue is closed.
use cliproxy_new.Base.{
  suc, ◌≡◌, refl, sym, ap, subst, ◌∙◌, Bool, true, false, List, [], ◌∷◌, ◌++◌, length,
  if◌then◌else◌, ◌==◌, nat_eq, arith, Bool-cases, inl, inr,
}
use cliproxy_new.Usage.{UsageEvent}
use cliproxy_new.Usage.Buffer.{
  BufferedPlugin, flush_batch, flush, append_event, end_of_queue, receive_from, receive, batch_size,
}
use cliproxy_new.Usage.Buffer.Invariant.{contents, receive-contents}

-- The writer's receives, by whether each `InsertBatch` they come to succeeds.
pub receive_all : BufferedPlugin → List Bool → BufferedPlugin
receive_all p [] = p
receive_all p (o ∷ os) = receive_all (receive p o) os

-- What a flush and an append leave alone.
unfoldable pub Same : BufferedPlugin → BufferedPlugin → Type 0
Same q p = (q.queue ≡ p.queue) × (q.closed ≡ p.closed) × (q.done ≡ p.done) × (q.writer ≡ p.writer)

flush_batch-Same :
    (p : BufferedPlugin) (es : List UsageEvent) (stored : Bool) → Same (flush_batch p es stored) p
unfolding Same flush_batch
flush_batch-Same p [] stored = (refl, refl, refl, refl)
flush_batch-Same p (e ∷ es) stored = (refl, refl, refl, refl)

pub flush-Same : (p : BufferedPlugin) (stored : Bool) → Same (flush p stored) p
unfolding flush
flush-Same p stored = flush_batch-Same p p.batch stored

append_event-Same :
    (p : BufferedPlugin) (batch : List UsageEvent) (stored : Bool)
    → Same (append_event p batch stored) p
unfolding append_event Same
append_event-Same p batch stored = elim (Bool-cases (length batch == batch_size)) [
  | inl full ↦ rw full (flush-Same (record p { batch = batch }) stored)
  | inr room ↦ rw room (refl, refl, refl, refl)
]

pub flush_batch-batch :
    (p : BufferedPlugin) (es : List UsageEvent) (stored : Bool)
    → p.batch ≡ es
    → (flush_batch p es stored).batch ≡ []
unfolding flush_batch
flush_batch-batch p [] stored e = e
flush_batch-batch p (x ∷ es) stored e = refl

pub receive_running :
    (p : BufferedPlugin) (queue : List UsageEvent) (stored : Bool)
    → p.done ≡ false
    → p.queue ≡ queue
    → receive p stored ≡ receive_from p queue stored
unfolding receive
receive_running p queue stored running e =
    ap (λ d. if d then p else receive_from p p.queue stored) running
    ∙ ap (λ q. receive_from p q stored) e

-- Nothing is left and nothing runs.
unfoldable pub Drained : BufferedPlugin → Type 0
Drained p = (p.done ≡ true) × (p.queue ≡ []) × (p.batch ≡ [])

end_of_queue-Drained :
    (p : BufferedPlugin) (closed stored : Bool)
    → closed ≡ true
    → p.queue ≡ []
    → Drained (end_of_queue p closed stored)
unfolding Drained end_of_queue flush Same
end_of_queue-Drained p true stored e q =
    (refl, (flush-Same p stored).0 ∙ q, flush_batch-batch p p.batch stored refl)
end_of_queue-Drained p false stored e q = cc

pub receive_from-Same :
    (p : BufferedPlugin) (event : UsageEvent) (rest : List UsageEvent) (stored : Bool)
    → Same (receive_from p (event ∷ rest) stored) (record p { queue = rest })
unfolding receive_from
receive_from-Same p event rest stored =
    append_event-Same (record p { queue = rest }) (p.batch ++ event ∷ []) stored

pub receive_all-Drained :
    (p : BufferedPlugin) (queue : List UsageEvent) (outcomes : List Bool)
    → p.queue ≡ queue
    → p.closed ≡ true
    → p.done ≡ false
    → length outcomes ≡ suc (length queue)
    → Drained (receive_all p outcomes)
unfolding receive_all Same receive_from end_of_queue
receive_all-Drained p [] [] q c d n = ground arith
receive_all-Drained p (event ∷ rest) [] q c d n = ground arith
receive_all-Drained p [] (o ∷ []) q c d n =
    subst Drained (sym (receive_running p [] o d q)) (end_of_queue-Drained p p.closed o c q)
receive_all-Drained p [] (o ∷ x ∷ os) q c d n = ground arith
receive_all-Drained p (event ∷ rest) (o ∷ os) q c d n =
    let same = receive_from-Same p event rest o in
    subst (λ r. Drained (receive_all r os)) (sym (receive_running p (event ∷ rest) o d q))
      (receive_all-Drained (receive_from p (event ∷ rest) o) rest os same.0 (same.1 ∙ c)
        (same.2 ∙ d) (omega (arith, n)))

pub done_once : (p : BufferedPlugin) (o : Bool) → p.done ≡ true → receive p o ≡ p
unfolding receive
done_once p o d = ap (λ b. if b then p else receive_from p p.queue o) d

pub receive_all_done : (p : BufferedPlugin) (os : List Bool) → p.done ≡ true → receive_all p os ≡ p
unfolding receive_all
receive_all_done p [] d = refl
receive_all_done p (o ∷ os) d =
    receive_all_done (receive p o) os (ap (λ r. r.done) (done_once p o d) ∙ d) ∙ done_once p o d

pub receive_all-contents :
    (p : BufferedPlugin) (os : List Bool) → contents (receive_all p os) ≡ contents p
unfolding receive_all
receive_all-contents p [] = refl
receive_all-contents p (o ∷ os) = receive_all-contents (receive p o) os ∙ receive-contents p o
