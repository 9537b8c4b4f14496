-- ===== src/Worker/Examples/Events.antt =====
-- A sender that posts one event, and the payload of a text.
use not_so_simple_software_f.Prelude.{
  ℕ, ltb, if◌then◌else◌, ◌≤◌, ◌≡◌, refl, true, false, String, some, [], ◌∷◌, arith, length,
}
use not_so_simple_software_f.Worker.Payload.{
  Bytes, Encoding, max_event_bytes, event_payload, encode, bounded_bytes,
}
use not_so_simple_software_f.Worker.Payload.Bounds.{Payload, event_payload-fits}
use not_so_simple_software_f.Worker.Sender.{
  OutgoingEvent, capacity, Sender, new_event_sender, enqueue, close_and_wait, close_channel,
  try_send, answered, accepted, is_stream, enqueues, closes, receives, ends, posts, receiving,
  finished, Reach, start, step, await_done,
}
use not_so_simple_software_f.Worker.Sender.Numbers.{numbered}
use not_so_simple_software_f.Worker.Sender.Order.{sequences}
use not_so_simple_software_f.Worker.Sender.Reports.{
  Reach-delivered, Reach-finished, Reach-returns, Reach-ends, Steps, Waits,
}

-- An encoding that puts the text between two bytes; every text is UTF-8 and none is JSON.
abbrev brackets : Encoding
brackets = record {
  is_utf8 = λ text. true;
  is_json = λ text. false;
  marshal = λ stream text truncated. 91 ∷ text;
}

brackets_small :
    (stream : String)
    → is_stream stream ≡ true
    → length (brackets.marshal stream [] true) ≤ max_event_bytes
brackets_small stream known = omega arith

abbrev hello : Bytes
hello = 104 ∷ 105 ∷ []

event_payload-fits_example :
    (payload : Bytes) × (event_payload brackets "stdout" hello false ≡ some payload)
    × (length payload ≤ max_event_bytes)
    × Payload brackets "stdout" hello false payload
event_payload-fits_example = event_payload-fits brackets "stdout" hello false (omega arith)

hello_payload : event_payload brackets "stdout" hello false ≡ some (91 ∷ 104 ∷ 105 ∷ [])
unfolding event_payload encode bounded_bytes
hello_payload = refl

abbrev first : OutgoingEvent
first = record { sequence = 0; kind = "output"; payload = 91 ∷ 104 ∷ 105 ∷ [] }

abbrev queued : Sender
queued = record {
  kind = "output";
  input = record { items = first ∷ []; closed = false };
  next = 1;
  disabled = false;
  closed = false;
  run = receiving;
  delivered = [];
}

Reach-queued : Reach brackets "output" queued
unfolding new_event_sender enqueue event_payload encode bounded_bytes try_send is_stream
Reach-queued = step start (enqueues "stdout" hello false refl refl)

abbrev shut : Sender
shut = record queued { input = record queued.input { closed = true }; closed = true }

Reach-shut : Reach brackets "output" shut
unfolding close_and_wait close_channel
Reach-shut = step Reach-queued (closes refl)

abbrev ended : Sender
ended = record shut {
  input = record { items = []; closed = true };
  run = finished;
  delivered = first ∷ [];
}

Reach-ended : Reach brackets "output" ended
unfolding answered
Reach-ended =
    step (step (step Reach-shut (receives first [] refl refl)) (posts accepted first 100 refl))
      (ends refl refl refl)

Reach-delivered_example : sequences (first ∷ []) ≡ numbered 1
Reach-delivered_example = Reach-delivered brackets "output" brackets_small Reach-ended

Reach-finished_example : sequences (first ∷ []) ≡ numbered 1
Reach-finished_example = Reach-finished brackets "output" brackets_small Reach-ended refl

-- The goroutine ends 3 milliseconds after the channel was closed.
abbrev ends_soon : ℕ → Sender
ends_soon now = if ltb now 3 then shut else ended

Reach-returns_example :
    ((t : Sender) × (enqueue brackets "stderr" hello true queued ≡ some t))
    × (length queued.input.items ≤ capacity)
    × ((t : Sender) × (close_and_wait queued ≡ some t))
    × Waits ends_soon 5000 0 (await_done ends_soon 5000 5001 0)
unfolding is_stream
Reach-returns_example =
    Reach-returns brackets "output" "stderr" hello true ends_soon 5000 brackets_small refl
      Reach-queued

waits_three : await_done ends_soon 5 6 0 ≡ some 3
unfolding await_done
waits_three = refl

Reach-ends_example :
    (t : Sender) × Steps brackets shut t
    × (t.run ≡ finished)
    × (sequences t.delivered ≡ numbered t.next)
Reach-ends_example = Reach-ends brackets "output" brackets_small Reach-shut refl refl
