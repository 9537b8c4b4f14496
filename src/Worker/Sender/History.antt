-- ===== src/Worker/Sender/History.antt =====
-- A sender of events stays in order through every history.
use not_so_simple_software_f.Prelude.{
  ℕ, ◌≤◌, ◌≡◌, sym, ap, ◌∙◌, subst, true, String, List, [], ◌∷◌, ◌++◌, arith, ltb, length, if-keeps,
}
use not_so_simple_software_f.Service.Laws.{some-injective}
use not_so_simple_software_f.Worker.Payload.{Encoding, max_event_bytes}
use not_so_simple_software_f.Worker.Sender.{
  OutgoingEvent, capacity, Run, receiving, posting, waiting, gave_up, finished, Sender,
  first_backoff, next_backoff, Answer, accepted, api_error, unreachable, answered, is_stream, Step,
  enqueues, closes, receives, ends, posts, retries, cancels, Reach, start, step,
}
use not_so_simple_software_f.Worker.Sender.Order.{
  sequences, held, Waits, Drained, InOrder, new_event_sender-InOrder, accounted-delivered,
  enqueue-InOrder, close_and_wait-InOrder, next_backoff-within,
}

-- Only `run`'s place and what is delivered change.
moved-InOrder :
    (s : Sender) (run : Run)
    → InOrder s
    → held run ≡ held s.run
    → Waits run
    → Drained run s.input
    → InOrder (record s { run = run })
moved-InOrder s run i same waits drained = record {
  numbers = ap (λ h. sequences (s.delivered ++ (h ++ s.input.items))) same ∙ i.numbers;
  room = i.room;
  agree = i.agree;
  waits = waits;
  drained = drained;
}

disabled-InOrder : (s : Sender) → InOrder s → InOrder (record s { disabled = true })
disabled-InOrder s i = record {
  numbers = i.numbers;
  room = i.room;
  agree = i.agree;
  waits = i.waits;
  drained = i.drained;
}

answered-InOrder :
    (answer : Answer) (event : OutgoingEvent) (backoff : ℕ) (s : Sender)
    → s.run ≡ posting event backoff
    → InOrder s
    → InOrder (answered answer event backoff s)
unfolding answered
answered-InOrder accepted event backoff s at i = record {
  numbers =
      ap sequences (
        accounted-delivered s.delivered s.input.items event
        ∙ ap (λ h. s.delivered ++ (h ++ s.input.items)) (ap held (sym at)))
      ∙ i.numbers;
  room = i.room;
  agree = i.agree;
  waits = tt;
  drained = tt;
}
answered-InOrder (api_error status) event backoff s at i =
    if-keeps InOrder (ltb status 500) _ _
      (disabled-InOrder (record s { run = gave_up event })
        (moved-InOrder s (gave_up event) i (sym (ap held at)) tt tt))
      (moved-InOrder s (waiting event backoff) i (sym (ap held at)) (subst Waits at i.waits) tt)
answered-InOrder unreachable event backoff s at i =
    moved-InOrder s (waiting event backoff) i (sym (ap held at)) (subst Waits at i.waits) tt

received-InOrder :
    (s : Sender) (event : OutgoingEvent) (rest : List OutgoingEvent)
    → s.run ≡ receiving
    → s.input.items ≡ event ∷ rest
    → InOrder s
    → InOrder
        (record s { input = record s.input { items = rest }; run = posting event first_backoff })
received-InOrder s event rest at top i =
    let room : length (event ∷ rest) ≤ capacity =
      subst (λ (k : List OutgoingEvent). length k ≤ capacity) top i.room in
    let same : held s.run ++ s.input.items ≡ event ∷ rest =
      ap (λ r. held r ++ s.input.items) at ∙ top in
    record {
      numbers = ap (λ k. sequences (s.delivered ++ k)) (sym same) ∙ i.numbers;
      room = omega (arith, room);
      agree = i.agree;
      waits = (omega arith, omega arith);
      drained = tt;
    }

pub Step-InOrder :
    (enc : Encoding) {s t : Sender}
    → ((stream : String)
        → is_stream stream ≡ true
        → length (enc.marshal stream [] true) ≤ max_event_bytes)
    → InOrder s
    → Step enc s t
    → InOrder t
Step-InOrder enc {s = s} small i (enqueues stream text truncated known to) =
    let (t, made, after) = enqueue-InOrder enc stream text truncated s (small stream known) i in
    subst InOrder (some-injective (sym made ∙ to)) after
Step-InOrder enc {s = s} small i (closes to) =
    let (t, made, after) = close_and_wait-InOrder s i in
    subst InOrder (some-injective (sym made ∙ to)) after
Step-InOrder enc small i (receives event rest at top) = received-InOrder _ event rest at top i
Step-InOrder enc {s = s} small i (ends at none_left shut) =
    moved-InOrder s finished i (sym (ap held at)) tt (none_left, shut)
Step-InOrder enc small i (posts answer event backoff at) =
    answered-InOrder answer event backoff _ at i
Step-InOrder enc {s = s} small i (retries event backoff at) =
    let (from, _) = subst Waits at i.waits in
    moved-InOrder s (posting event (next_backoff backoff)) i (sym (ap held at))
      (next_backoff-within backoff from) tt
Step-InOrder enc {s = s} small i (cancels event backoff at) =
    moved-InOrder s (gave_up event) i (sym (ap held at)) tt tt

pub Reach-InOrder :
    (enc : Encoding) (kind : String) {s : Sender}
    → ((stream : String)
        → is_stream stream ≡ true
        → length (enc.marshal stream [] true) ≤ max_event_bytes)
    → Reach enc kind s
    → InOrder s
Reach-InOrder enc kind small start = new_event_sender-InOrder kind
Reach-InOrder enc kind small (step before last) =
    Step-InOrder enc small (Reach-InOrder enc kind small before) last
