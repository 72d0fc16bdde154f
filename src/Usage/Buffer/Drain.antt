-- ===== src/Usage/Buffer/Drain.antt =====
-- `Close` of internal/usage/buffered_plugin.go and the receives of the writer after it.
use mathlib.Core.List.{append-nil}
use cliproxy_new.Base.{
  suc, ◌≡◌, refl, sym, ap, subst, ◌∙◌, ◌⊎◌, Bool, true, false, Option, List, [], ◌∷◌, ◌++◌, length,
  ltb, if◌then◌else◌, nat_eq, Result, ok, err, Bool-cases, inl, inr,
}
use cliproxy_new.Access.Principal.{Invalid}
use cliproxy_new.Usage.{Record, UsageEvent, usage_event_from_record}
use cliproxy_new.Usage.Buffer.{
  BufferedPlugin, Writer, is_nil, new_buffered_plugin, offer, admit, handle_event, handle_usage,
  close, flush, end_of_queue, receive_from, receive, tick, queue_depth, queue_capacity,
}
use cliproxy_new.Usage.Buffer.Invariant.{
  Action, handles, receives, ticks, closes, step, run, written, contents, taken_all, run-contents,
  contents-new, closed_same,
}
use cliproxy_new.Usage.Buffer.Receives.{
  receive_all, Same, flush-Same, flush_batch-batch, receive_running, Drained, receive_from-Same,
  receive_all-Drained, done_once, receive_all_done, receive_all-contents,
}

-- A writer that is done has left nothing, and nothing will come.
Settled : BufferedPlugin → Type 0
Settled p =
    p.done ≡ true → (p.queue ≡ []) × (p.batch ≡ []) × ((p.closed ≡ true) ⊎ (is_nil p.writer ≡ true))

new-Settled : (w : Option Writer) → Settled (new_buffered_plugin w)
unfolding Settled new_buffered_plugin
new-Settled w d = (refl, refl, inr d)

offer-done : (p : BufferedPlugin) (event : UsageEvent) → (offer p event).done ≡ p.done
unfolding offer
offer-done p event = elim (Bool-cases (ltb (length p.queue) queue_capacity)) [
  | inl room ↦ rw room refl
  | inr full ↦ rw full refl
]

admit-Settled :
    (p : BufferedPlugin) (closed : Bool) (event : UsageEvent)
    → p.closed ≡ closed
    → is_nil p.writer ≡ false
    → Settled p
    → Settled (admit p closed event)
unfolding admit Settled
admit-Settled p true event e n settled = settled
admit-Settled p false event e n settled =
    λ d. elim ((settled (sym (offer-done p event) ∙ d)).2) [ inl shut ↦ cc | inr nil ↦ cc ]

handle_event-Settled :
    (p : BufferedPlugin) (r : Result Invalid UsageEvent)
    → is_nil p.writer ≡ false
    → Settled p
    → Settled (handle_event p r)
unfolding handle_event
handle_event-Settled p (err e) n settled = settled
handle_event-Settled p (ok event) n settled = admit-Settled p p.closed event refl n settled

unsettled : (p : BufferedPlugin) → p.done ≡ false → Settled p
unfolding Settled
unsettled p running d = cc

Settled-Drained : (p : BufferedPlugin) → Settled p → p.done ≡ true → Drained p
unfolding Settled Drained
Settled-Drained p settled over = (over, (settled over).0, (settled over).1)

end_of_queue-Settled :
    (p : BufferedPlugin) (closed stored : Bool)
    → p.closed ≡ closed
    → p.queue ≡ []
    → p.done ≡ false
    → Settled (end_of_queue p closed stored)
unfolding Settled end_of_queue flush Same
end_of_queue-Settled p true stored c q running = λ d. (
  (flush-Same p stored).0 ∙ q,
  flush_batch-batch p p.batch stored refl,
  inl ((flush-Same p stored).1 ∙ c),
)
end_of_queue-Settled p false stored c q running = λ d. cc

handle_usage-Settled : (p : BufferedPlugin) (r : Record) → Settled p → Settled (handle_usage p r)
unfolding handle_usage
handle_usage-Settled p r settled = elim (Bool-cases (is_nil p.writer)) [
  | inl nil ↦ rw nil settled
  | inr live ↦ rw live (handle_event-Settled p (usage_event_from_record r) live settled)
]

receive_from-Settled :
    (p : BufferedPlugin) (queue : List UsageEvent) (stored : Bool)
    → p.queue ≡ queue
    → p.done ≡ false
    → Settled (receive_from p queue stored)
unfolding receive_from Same
receive_from-Settled p [] stored q running = end_of_queue-Settled p p.closed stored refl q running
receive_from-Settled p (event ∷ rest) stored q running =
    unsettled (receive_from p (event ∷ rest) stored)
      ((receive_from-Same p event rest stored).2 ∙ running)

receive-Settled : (p : BufferedPlugin) (stored : Bool) → Settled p → Settled (receive p stored)
receive-Settled p stored settled = elim (Bool-cases p.done) [
  | inl over ↦ subst Settled (sym (done_once p stored over)) settled
  | inr running ↦
      subst Settled (sym (receive_running p p.queue stored running refl))
        (receive_from-Settled p p.queue stored refl running)
]

tick-Settled : (p : BufferedPlugin) (stored : Bool) → Settled p → Settled (tick p stored)
unfolding tick Same
tick-Settled p stored settled = elim (Bool-cases p.done) [
  | inl over ↦ subst Settled (sym (ap (λ b. if b then p else flush p stored) over)) settled
  | inr running ↦
      subst Settled (sym (ap (λ b. if b then p else flush p stored) running))
        (unsettled (flush p stored) ((flush-Same p stored).2 ∙ running))
]

close-Settled : (p : BufferedPlugin) → Settled p → Settled (close p)
unfolding Settled close
close-Settled p settled d = ((settled d).0, (settled d).1, inl refl)

step-Settled : (p : BufferedPlugin) (a : Action) → Settled p → Settled (step p a)
unfolding step
step-Settled p (handles r) settled = handle_usage-Settled p r settled
step-Settled p (receives stored) settled = receive-Settled p stored settled
step-Settled p (ticks stored) settled = tick-Settled p stored settled
step-Settled p closes settled = close-Settled p settled

run-Settled : (p : BufferedPlugin) (acts : List Action) → Settled p → Settled (run p acts)
unfolding run
run-Settled p [] settled = settled
run-Settled p (a ∷ acts) settled = run-Settled (step p a) acts (step-Settled p a settled)

shut_down-Drained :
    (p : BufferedPlugin) (outcomes : List Bool)
    → Settled p
    → p.closed ≡ true
    → length outcomes ≡ suc (length p.queue)
    → Drained (receive_all p outcomes)
shut_down-Drained p outcomes settled c n = elim (Bool-cases p.done) [
  | inl over ↦
      subst Drained (sym (receive_all_done p outcomes over)) (Settled-Drained p settled over)
  | inr running ↦ receive_all-Drained p p.queue outcomes refl c running n
]

contents-Drained : (p : BufferedPlugin) → Drained p → contents p ≡ written p.writes
unfolding Drained contents
contents-Drained p d = rw (d.1, d.2) (append-nil (written p.writes))

close-closed : (p : BufferedPlugin) → (close p).closed ≡ true
unfolding close
close-closed p = refl

close-length : (p : BufferedPlugin) → length (close p).queue ≡ length p.queue
unfolding close
close-length p = refl

close-contents : (p : BufferedPlugin) → contents (close p) ≡ contents p
unfolding close
close-contents p = closed_same p

-- A plugin is started, runs through any interleaving of calls, receives and ticks, whichever writes
-- fail, and is closed: as many receives as the queue then has events, and one more, leave the
-- writer done with an empty queue and batch, and the events handed to `InsertBatch` are exactly the
-- events that the queue took, each once and in order.
pub close-Drained :
    (w : Option Writer) (acts : List Action) (outcomes : List Bool)
    → length outcomes ≡ suc (queue_depth (run (new_buffered_plugin w) acts))
    → Drained (receive_all (close (run (new_buffered_plugin w) acts)) outcomes)
      × (written (receive_all (close (run (new_buffered_plugin w) acts)) outcomes).writes
          ≡ taken_all (new_buffered_plugin w) acts)
unfolding queue_depth
close-Drained w acts outcomes n =
    let end = close (run (new_buffered_plugin w) acts) in
    let drained =
      shut_down-Drained end outcomes
        (close-Settled (run (new_buffered_plugin w) acts)
          (run-Settled (new_buffered_plugin w) acts (new-Settled w)))
        (close-closed (run (new_buffered_plugin w) acts))
        (n ∙ ap suc (sym (close-length (run (new_buffered_plugin w) acts)))) in
    (
      drained,
      sym (contents-Drained (receive_all end outcomes) drained)
          ∙ receive_all-contents end outcomes
          ∙ close-contents (run (new_buffered_plugin w) acts)
          ∙ run-contents (new_buffered_plugin w) acts
          ∙ ap (λ es. es ++ taken_all (new_buffered_plugin w) acts) (contents-new w),
    )
