-- ===== src/Worker/Sender.antt =====
-- The sender of an attempt's events: eventSender (factory/internal/worker/events.go). Agents enqueue
-- events, and a goroutine of its own posts them to the control plane, one at a time.
pub mod Numbers
pub mod Order
pub mod History
pub mod Reports
use not_so_simple_software_f.Prelude.{
  ℕ, zero, suc, leb, ◌+◌, ◌*◌, ◌≡◌, Bool, true, false, ◌||◌, String, Option, none, some, List, [],
  ◌∷◌, ◌++◌, ltb, length, str_eq, if◌then◌else◌,
}
use not_so_simple_software_f.Worker.Payload.{Bytes, Encoding, event_payload}

-- protocol.AttemptEvent, as it leaves the Worker.
pub record OutgoingEvent : Type 0 where
  pub sequence : ℕ
  pub kind : String
  pub payload : Bytes

-- A buffered channel.
pub record Channel : Type 0 where
  pub items : List OutgoingEvent
  pub closed : Bool

-- The channel's capacity.
abbrev pub capacity : ℕ
capacity = 100

-- A send that does not wait. A send on a closed channel panics.
pub data Sent : Type 0 where
  sent : Channel → Sent
  full : Sent
  panicked : Sent

unfoldable pub try_send : OutgoingEvent → Channel → Sent
try_send event c =
    if c.closed
    then panicked
    else if ltb (length c.items) capacity
    then sent (record c { items = c.items ++ event ∷ [] })
    else full

-- Where the goroutine `run` is: at the head of its loop, in a request, in the wait before the next try of
-- the same event, or past its end. Times are in milliseconds.
pub data Run : Type 0 where
  receiving : Run
  posting : OutgoingEvent → (backoff : ℕ) → Run
  waiting : OutgoingEvent → (backoff : ℕ) → Run
  -- It returned with an event that it could not deliver, or after the last event.
  gave_up : OutgoingEvent → Run
  finished : Run

-- `delivered` is what the control plane has acknowledged, in order.
pub record Sender : Type 0 where
  pub kind : String
  pub input : Channel
  pub next : ℕ
  pub disabled : Bool
  pub closed : Bool
  pub run : Run
  pub delivered : List OutgoingEvent

unfoldable pub new_event_sender : String → Sender
new_event_sender kind = record {
  kind = kind;
  input = record { items = []; closed = false };
  next = 0;
  disabled = false;
  closed = false;
  run = receiving;
  delivered = [];
}

-- The select in enqueue.
abbrev pub after_send : Sent → Sender → Option Sender
after_send (sent c) s = some (record s { input = c; next = s.next + 1 })
after_send full s = some (record s { disabled = true })
after_send panicked s = none

abbrev pub send_payload : Option Bytes → Sender → Option Sender
send_payload none s = none
send_payload (some payload) s =
    after_send (try_send (record { sequence = s.next; kind = s.kind; payload = payload }) s.input) s

-- `none` when enqueue does not return, by a panic or a search without end.
unfoldable pub enqueue : Encoding → String → Bytes → Bool → Sender → Option Sender
enqueue enc stream text truncated s =
    if s.disabled || s.closed
    then some s
    else send_payload (event_payload enc stream text truncated) s

-- close(sender.input), which panics on a closed channel.
unfoldable pub close_channel : Channel → Option Channel
close_channel c = if c.closed then none else some (record c { closed = true })

abbrev pub after_close : Option Channel → Sender → Option Sender
after_close none s = none
after_close (some c) s = some (record s { input = c; closed = true })

-- What closeAndWait does under the mutex; its wait is await_done.
unfoldable pub close_and_wait : Sender → Option Sender
close_and_wait s = if s.closed then some s else after_close (close_channel s.input) s

-- Whether `run` has returned, which closes `done`.
abbrev pub has_ended : Run → Bool
has_ended (gave_up e) = true
has_ended finished = true
has_ended _ = false

-- The wait of closeAndWait: the time at which its select goes on, in milliseconds after the timer was
-- made, where `later now` is the sender at that time. Each turn is a millisecond; `none` is a wait that
-- goes on after the turns.
unfoldable pub await_done : (later : ℕ → Sender) → (timeout turns now : ℕ) → Option ℕ
await_done later timeout zero now = none
await_done later timeout (suc turns) now =
    let rest = await_done later timeout turns (suc now) in
    if has_ended (later now).run then some now else if leb timeout now then some now else rest

-- 100 * time.Millisecond and 2 * time.Second
abbrev pub first_backoff : ℕ
first_backoff = 100

abbrev pub last_backoff : ℕ
last_backoff = 2_000

abbrev pub next_backoff : ℕ → ℕ
next_backoff backoff = if ltb last_backoff (backoff * 2) then last_backoff else backoff * 2

-- What a request comes to: an answer without error, an APIError, or another error.
pub data Answer : Type 0 where
  accepted : Answer
  api_error : (status : ℕ) → Answer
  unreachable : Answer

-- apiError.Status < 500
abbrev pub is_refusal : Answer → Bool
is_refusal accepted = false
is_refusal (api_error status) = ltb status 500
is_refusal unreachable = false

unfoldable pub answered : Answer → OutgoingEvent → ℕ → Sender → Sender
answered accepted event backoff s = record s {
  delivered = s.delivered ++ event ∷ [];
  run = receiving;
}
answered answer event backoff s =
    if is_refusal answer
    then record s { disabled = true; run = gave_up event }
    else record s { run = waiting event backoff }

-- The names of the streams that an attempt's processes write to.
unfoldable pub is_stream : String → Bool
is_stream stream = str_eq stream "stdout" || str_eq stream "stderr"

-- What the sender does next: a call of enqueue or of closeAndWait from any goroutine, or a step of `run`.
-- The mutex makes each of them one step.
pub data Step (enc : Encoding) : Sender → Sender → Type 0 where
  enqueues :
      {s t : Sender} (stream : String) (text : Bytes) (truncated : Bool)
      → is_stream stream ≡ true
      → enqueue enc stream text truncated s ≡ some t
      → Step enc s t
  closes : {s t : Sender} → close_and_wait s ≡ some t → Step enc s t
  receives :
      {s : Sender} (event : OutgoingEvent) (rest : List OutgoingEvent)
      → s.run ≡ receiving
      → s.input.items ≡ event ∷ rest
      → Step enc s
          (record s { input = record s.input { items = rest }; run = posting event first_backoff })
  -- `range` ends when the channel is closed and empty.
  ends :
      {s : Sender}
      → s.run ≡ receiving
      → s.input.items ≡ []
      → s.input.closed ≡ true
      → Step enc s (record s { run = finished })
  posts :
      {s : Sender} (answer : Answer) (event : OutgoingEvent) (backoff : ℕ)
      → s.run ≡ posting event backoff
      → Step enc s (answered answer event backoff s)
  retries :
      {s : Sender} (event : OutgoingEvent) (backoff : ℕ)
      → s.run ≡ waiting event backoff
      → Step enc s (record s { run = posting event (next_backoff backoff) })
  -- ctx.Done() during the wait.
  cancels :
      {s : Sender} (event : OutgoingEvent) (backoff : ℕ)
      → s.run ≡ waiting event backoff
      → Step enc s (record s { run = gave_up event })

-- The histories of a sender.
pub data Reach (enc : Encoding) (kind : String) : Sender → Type 0 where
  start : Reach enc kind (new_event_sender kind)
  step : {s t : Sender} → Reach enc kind s → Step enc s t → Reach enc kind t
