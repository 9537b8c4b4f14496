-- ===== src/Worker/Sender/Order.antt =====
-- What holds of a sender of events at every moment: its channel, its numbers and its waits; and what its
-- callers do to that.
use not_so_simple_software_f.Prelude.{
  ℕ, ◌+◌, ◌≤◌, ◌<◌, ltb→lt, ◌≡◌, ◌⊎◌, inl, inr, refl, ap, ◌∙◌, Bool, true, false, ◌||◌, String,
  some, List, [], ◌∷◌, ◌++◌, map, arith, ltb, length, length-append, Bool-cases,
}
use not_so_simple_software_f.Worker.Payload.{Bytes, Encoding, max_event_bytes}
use not_so_simple_software_f.Worker.Payload.Bounds.{event_payload-fits}
use not_so_simple_software_f.Worker.Sender.{
  OutgoingEvent, Channel, capacity, try_send, sent, full, Run, receiving, posting, waiting, gave_up,
  finished, Sender, new_event_sender, after_send, send_payload, enqueue, close_channel,
  close_and_wait, first_backoff, last_backoff, next_backoff,
}
use not_so_simple_software_f.Worker.Sender.Numbers.{count_from, numbered, numbered_succ}

abbrev pub sequences : List OutgoingEvent → List ℕ
sequences events = map (λ e. e.sequence) events

-- The event that `run` has taken from the channel and not delivered.
abbrev pub held : Run → List OutgoingEvent
held receiving = []
held (posting e b) = e ∷ []
held (waiting e b) = e ∷ []
held (gave_up e) = e ∷ []
held finished = []

-- All events that were numbered, in order.
abbrev pub accounted : Sender → List OutgoingEvent
accounted s = s.delivered ++ (held s.run ++ s.input.items)

abbrev pub Waits : Run → Type 0
Waits receiving = Unit
Waits (posting e b) = (first_backoff ≤ b) × (b ≤ last_backoff)
Waits (waiting e b) = (first_backoff ≤ b) × (b ≤ last_backoff)
Waits (gave_up e) = Unit
Waits finished = Unit

abbrev pub Drained : Run → Channel → Type 0
Drained finished c = (c.items ≡ []) × (c.closed ≡ true)
Drained _ c = Unit

pub record InOrder (s : Sender) : Type 0 where
  pub numbers : sequences (accounted s) ≡ numbered s.next
  pub room : length s.input.items ≤ capacity
  pub agree : s.input.closed ≡ s.closed
  pub waits : Waits s.run
  pub drained : Drained s.run s.input

pub new_event_sender-InOrder : (kind : String) → InOrder (new_event_sender kind)
unfolding new_event_sender count_from
new_event_sender-InOrder kind = record {
  numbers = refl;
  room = omega arith;
  agree = refl;
  waits = tt;
  drained = tt;
}

sequences-snoc :
    (a b c : List OutgoingEvent) (e : OutgoingEvent)
    → sequences (a ++ (b ++ (c ++ e ∷ []))) ≡ sequences (a ++ (b ++ c)) ++ e.sequence ∷ []
sequences-snoc [] [] [] e = refl
sequences-snoc [] [] (x ∷ c) e = ap (λ k. x.sequence ∷ k) (sequences-snoc [] [] c e)
sequences-snoc [] (x ∷ b) c e = ap (λ k. x.sequence ∷ k) (sequences-snoc [] b c e)
sequences-snoc (x ∷ a) b c e = ap (λ k. x.sequence ∷ k) (sequences-snoc a b c e)

-- An event that is delivered stays in its place.
pub accounted-delivered :
    (delivered rest : List OutgoingEvent) (e : OutgoingEvent)
    → (delivered ++ e ∷ []) ++ rest ≡ delivered ++ e ∷ rest
accounted-delivered [] rest e = refl
accounted-delivered (x ∷ delivered) rest e = ap (λ k. x ∷ k) (accounted-delivered delivered rest e)

try_send-open :
    (e : OutgoingEvent) (c : Channel) (s : Sender)
    → c.closed ≡ false
    → ((length c.items < capacity) × (try_send e c ≡ sent (record c { items = c.items ++ e ∷ [] })))
      ⊎ (try_send e c ≡ full)
unfolding try_send
try_send-open e c s h = elim (Bool-cases (ltb (length c.items) capacity)) [
  | inl room ↦ inl (ltb→lt _ _ room, rw (h, room) refl)
  | inr filled ↦ inr (rw (h, filled) refl)
]

pub Drained-idle :
    (run : Run) (c : Channel) → c.closed ≡ false → Drained run c → (d : Channel) → Drained run d
Drained-idle receiving c h k d = tt
Drained-idle (posting e b) c h k d = tt
Drained-idle (waiting e b) c h k d = tt
Drained-idle (gave_up e) c h k d = tt
Drained-idle finished c h k d = let closed = k.1 in cc

send_payload-InOrder :
    (payload : Bytes) (s : Sender)
    → InOrder s
    → s.closed ≡ false
    → (t : Sender) × (send_payload (some payload) s ≡ some t) × InOrder t
send_payload-InOrder payload s i h =
    let e : OutgoingEvent = record { sequence = s.next; kind = s.kind; payload = payload } in
    let is_open : s.input.closed ≡ false = i.agree ∙ h in
    elim (try_send-open e s.input s is_open) [
      | inl (room, to) ↦ (
        record s { input = record s.input { items = s.input.items ++ e ∷ [] }; next = s.next + 1 },
        ap (λ r. after_send r s) to,
        record {
          numbers =
              sequences-snoc s.delivered (held s.run) s.input.items e
              ∙ ap (λ k. k ++ s.next ∷ []) i.numbers
              ∙ numbered_succ s.next;
          room = omega (arith, room, length-append s.input.items (e ∷ []));
          agree = i.agree;
          waits = i.waits;
          drained = Drained-idle s.run s.input is_open i.drained _;
        },
      )
      | inr to ↦ (
        record s { disabled = true },
        ap (λ r. after_send r s) to,
        record {
          numbers = i.numbers;
          room = i.room;
          agree = i.agree;
          waits = i.waits;
          drained = i.drained;
        },
      )
    ]

-- enqueue, in order, always returns, and leaves the sender in order.
pub enqueue-InOrder :
    (enc : Encoding) (stream : String) (text : Bytes) (truncated : Bool) (s : Sender)
    → length (enc.marshal stream [] true) ≤ max_event_bytes
    → InOrder s
    → (t : Sender) × (enqueue enc stream text truncated s ≡ some t) × InOrder t
unfolding enqueue
enqueue-InOrder enc stream text truncated s small i = elim (Bool-cases (s.disabled || s.closed)) [
  | inl off ↦ (s, rw off refl, i)
  | inr on ↦
      let is_open : s.closed ≡ false = ground (arith, on) in
      let (payload, made, _, _) = event_payload-fits enc stream text truncated small in
      let (t, to, after) = send_payload-InOrder payload s i is_open in (t, rw (on, made) to, after)
]

pub close_and_wait-InOrder :
    (s : Sender) → InOrder s → (t : Sender) × (close_and_wait s ≡ some t) × InOrder t
unfolding close_and_wait close_channel
close_and_wait-InOrder s i = elim (Bool-cases s.closed) [
  | inl done ↦ (s, rw done refl, i)
  | inr is_open ↦ (
    record s { input = record s.input { closed = true }; closed = true },
    rw (is_open, i.agree ∙ is_open) refl,
    record {
      numbers = i.numbers;
      room = i.room;
      agree = refl;
      waits = i.waits;
      drained = Drained-idle s.run s.input (i.agree ∙ is_open) i.drained _;
    },
  )
]

pub next_backoff-within :
    (b : ℕ) → first_backoff ≤ b → (first_backoff ≤ next_backoff b) × (next_backoff b ≤ last_backoff)
next_backoff-within b h = ground (arith, h)
