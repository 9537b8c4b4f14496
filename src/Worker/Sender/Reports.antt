-- ===== src/Worker/Sender/Reports.antt =====
-- What a sender of events promises: what the control plane receives from it, that its callers never
-- wait for ever or panic, and that it comes to an end.
use not_so_simple_software_f.Prelude.{
  ℕ, zero, suc, ◌+◌, ◌<◌, ◌⊎◌, inl, inr, arith, leb, Bool-cases, Option, ◌≤◌, ◌≡◌, refl, sym, ap,
  ◌∙◌, subst, Bool, true, false, String, some, List, [], ◌∷◌, ◌++◌, length, length-map,
}
use mathlib.Core.List.{append-nil}
use not_so_simple_software_f.Worker.Payload.{Bytes, Encoding, max_event_bytes}
use not_so_simple_software_f.Worker.Sender.{
  OutgoingEvent, capacity, Run, receiving, posting, waiting, gave_up, finished, Sender, enqueue,
  close_and_wait, first_backoff, next_backoff, accepted, is_stream, answered, Step, receives, ends,
  posts, retries, Reach, has_ended, await_done,
}
use not_so_simple_software_f.Worker.Sender.Numbers.{count_from-prefix, numbered}
use not_so_simple_software_f.Worker.Sender.Order.{
  sequences, held, Drained, enqueue-InOrder, close_and_wait-InOrder,
}
use not_so_simple_software_f.Worker.Sender.History.{Reach-InOrder}

sequences-append : (a b : List OutgoingEvent) → sequences (a ++ b) ≡ sequences a ++ sequences b
sequences-append [] b = refl
sequences-append (e ∷ a) b = ap (λ k. e.sequence ∷ k) (sequences-append a b)

-- The events that the control plane has acknowledged carry the numbers 0, 1, 2 and so on, in this order
-- and with none missing, whatever was enqueued, refused or retried before, provided that a payload
-- with an empty text fits into an event.
pub Reach-delivered :
    (enc : Encoding) (kind : String) {s : Sender}
    → ((stream : String)
        → is_stream stream ≡ true
        → length (enc.marshal stream [] true) ≤ max_event_bytes)
    → Reach enc kind s
    → sequences s.delivered ≡ numbered (length s.delivered)
Reach-delivered enc kind {s = s} small reach =
    let i = Reach-InOrder enc kind small reach in
    count_from-prefix 0 s.next (sequences s.delivered) (sequences (held s.run ++ s.input.items))
      (sym (sequences-append s.delivered _) ∙ i.numbers)
    ∙ ap numbered (length-map s.delivered (λ e. e.sequence))

-- A sender whose goroutine has ended after its last event has delivered every event that it numbered, provided
-- that a payload with an empty text fits into an event.
pub Reach-finished :
    (enc : Encoding) (kind : String) {s : Sender}
    → ((stream : String)
        → is_stream stream ≡ true
        → length (enc.marshal stream [] true) ≤ max_event_bytes)
    → Reach enc kind s
    → s.run ≡ finished
    → sequences s.delivered ≡ numbered s.next
Reach-finished enc kind {s = s} small reach at =
    let i = Reach-InOrder enc kind small reach in
    let (drained, _) = subst (λ r. Drained r s.input) at i.drained in
    let emptied : held s.run ++ s.input.items ≡ [] =
      ap (λ r. held r ++ s.input.items) at ∙ drained in
    ap sequences (sym (append-nil s.delivered))
    ∙ ap (λ k. sequences (s.delivered ++ k)) (sym emptied)
    ∙ i.numbers

-- A wait of closeAndWait, from its start to the end of the select.
pub record Waits (later : ℕ → Sender) (timeout now : ℕ) (answer : Option ℕ) : Type 0 where
  pub goes_on : ℕ
  pub at : answer ≡ some goes_on
  pub after : now ≤ goes_on
  pub in_time : goes_on ≤ timeout
  pub reason : (has_ended (later goes_on).run ≡ true) ⊎ (goes_on ≡ timeout)

await_done-Waits :
    (later : ℕ → Sender) (timeout turns now : ℕ)
    → now ≤ timeout
    → timeout < now + turns
    → Waits later timeout now (await_done later timeout turns now)
unfolding await_done
await_done-Waits later timeout zero now early enough = absurd (omega (arith, early, enough))
await_done-Waits later timeout (suc turns) now early enough =
    elim (Bool-cases (has_ended (later now).run)) [
      | inl done ↦ rw done (record {
        goes_on = now;
        at = refl;
        after = omega arith;
        in_time = early;
        reason = inl done;
      })
      | inr runs ↦ elim (Bool-cases (leb timeout now)) [
        | inl fired ↦
            rw (runs, fired)
              (record {
                goes_on = now;
                at = refl;
                after = omega arith;
                in_time = early;
                reason = inr (ground (arith, early, fired));
              })
        | inr waits ↦
            let w =
              await_done-Waits later timeout turns (suc now) (ground (arith, waits))
                (omega (arith, enough)) in
            rw (runs, waits)
              (record {
                goes_on = w.goes_on;
                at = w.at;
                after = omega (arith, w.after);
                in_time = w.in_time;
                reason = w.reason;
              })
      ]
    ]

-- At every moment a call of enqueue and a call of closeAndWait return, provided that a payload with an empty
-- text fits into an event. For enqueue, the search of a payload ends, and nothing is sent on a closed channel;
-- the channel never holds more than 100 events. For closeAndWait, the channel is not closed twice, and
-- whatever the sender does meanwhile, the wait ends at the timeout or before, when the goroutine has ended.
pub Reach-returns :
    (enc : Encoding) (kind : String) {s : Sender} (stream : String) (text : Bytes)
    (truncated : Bool) (later : ℕ → Sender) (timeout : ℕ)
    → ((stream : String)
        → is_stream stream ≡ true
        → length (enc.marshal stream [] true) ≤ max_event_bytes)
    → is_stream stream ≡ true
    → Reach enc kind s
    → ((t : Sender) × (enqueue enc stream text truncated s ≡ some t))
      × (length s.input.items ≤ capacity)
      × ((t : Sender) × (close_and_wait s ≡ some t))
      × Waits later timeout 0 (await_done later timeout (suc timeout) 0)
Reach-returns enc kind {s = s} stream text truncated later timeout small known reach =
    let i = Reach-InOrder enc kind small reach in
    let (t, sent, _) = enqueue-InOrder enc stream text truncated s (small stream known) i in
    let (u, shut, _) = close_and_wait-InOrder s i in
    (
      (t, sent),
      i.room,
      (u, shut),
      await_done-Waits later timeout (suc timeout) 0 (omega arith) (omega arith),
    )

-- Several steps.
pub data Steps (enc : Encoding) : Sender → Sender → Type 0 where
  stop : {s : Sender} → Steps enc s s
  then : {s t u : Sender} → Step enc s t → Steps enc t u → Steps enc s u

Reach-Steps :
    (enc : Encoding) (kind : String) {s t : Sender}
    → Reach enc kind s
    → Steps enc s t
    → Reach enc kind t
Reach-Steps enc kind reach stop = reach
Reach-Steps enc kind reach (then step rest) = Reach-Steps enc kind (Reach.step reach step) rest

abbrev Ends : Encoding → Sender → Type 0
Ends enc s = (t : Sender) × Steps enc s t × (t.run ≡ finished)

drain :
    (enc : Encoding) (s : Sender) (items : List OutgoingEvent)
    → s.run ≡ receiving
    → s.input.items ≡ items
    → s.input.closed ≡ true
    → Ends enc s
unfolding answered
drain enc s [] at none_left shut = (_, then (ends at none_left shut) stop, refl)
drain enc s (event ∷ rest) at top shut =
    let (t, steps, done) = drain enc _ rest refl refl shut in
    (
      t,
      then (receives event rest at top) (then (posts accepted event first_backoff refl) steps),
      done,
    )

-- Whether the goroutine has given up.
abbrev pub has_given_up : Run → Bool
has_given_up (gave_up e) = true
has_given_up _ = false

-- The goroutine from any place but the last.
run-drains :
    (enc : Encoding) (s : Sender) (run : Run)
    → s.run ≡ run
    → has_given_up run ≡ false
    → s.input.closed ≡ true
    → Ends enc s
unfolding answered
run-drains enc s receiving at going shut = drain enc s s.input.items at refl shut
run-drains enc s (posting event b) at going shut =
    let (t, steps, done) = drain enc _ s.input.items refl refl shut in
    (t, then (posts accepted event b at) steps, done)
run-drains enc s (waiting event b) at going shut =
    let (t, steps, done) = drain enc _ s.input.items refl refl shut in
    (t, then (retries event b at) (then (posts accepted event (next_backoff b) refl) steps), done)
run-drains enc s (gave_up event) at going shut = cc
run-drains enc s finished at going shut = (s, stop, at)

-- A sender that was closed and has not given up can always come to its end, where every event that it
-- numbered is delivered: it needs only a control plane that accepts what it posts, and that a payload with
-- an empty text fits into an event.
pub Reach-ends :
    (enc : Encoding) (kind : String) {s : Sender}
    → ((stream : String)
        → is_stream stream ≡ true
        → length (enc.marshal stream [] true) ≤ max_event_bytes)
    → Reach enc kind s
    → s.closed ≡ true
    → has_given_up s.run ≡ false
    → (t : Sender) × Steps enc s t × (t.run ≡ finished) × (sequences t.delivered ≡ numbered t.next)
Reach-ends enc kind {s = s} small reach shut going =
    let i = Reach-InOrder enc kind small reach in
    let (t, steps, done) = run-drains enc s s.run refl going (i.agree ∙ shut) in
    (t, steps, done, Reach-finished enc kind small (Reach-Steps enc kind reach steps) done)
