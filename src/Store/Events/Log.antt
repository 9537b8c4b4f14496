-- ===== src/Store/Events/Log.antt =====
-- The log that AppendEvents keeps for an attempt: it grows at its end, in the order of the sequence
-- numbers, and within its budget.
use not_so_simple_software_f.Prelude.{
  ℕ, ◌+◌, ◌≤◌, ◌≡◌, ◌≢◌, refl, sym, ap, subst, ◌∙◌, ◌++◌, Bool, true, not, ◌||◌, List, Option, none,
  some, [], ◌∷◌, arith, len, str_eq, if-cases, inl, inr, ◌⊎◌, ◌==◌, Bool-cases,
}
use mathlib.Core.List.{append-nil, append_assoc}
use not_so_simple_software_f.Table.{select}
use not_so_simple_software_f.Service.{ok}
use not_so_simple_software_f.Service.Laws.{ok-injective, >>=-eq-ok}
use not_so_simple_software_f.Store.Rows.{AttemptEvent, Db, Env}
use not_so_simple_software_f.Store.Events.{
  Json, EventBatchRequest, Checked, Pending, add_event, add_events, event_rows, event_at, log,
  of_attempt, stored_bytes, max_sequence, later_of, exceeds, append_events, max_attempt_event_bytes,
}
use not_so_simple_software_f.Store.Events.Append.{append_events-Appended}

-- The events follow a sequence number, each the one before it.
abbrev pub Follows : Option ℕ → List AttemptEvent → Type 0
Follows m [] = Unit
Follows m (e ∷ rest) = (exceeds e.sequence m ≡ true) × Follows (some e.sequence) rest

-- The sequence number of the last event.
abbrev pub last_sequence : Option ℕ → List AttemptEvent → Option ℕ
last_sequence m [] = m
last_sequence m (e ∷ rest) = last_sequence (some e.sequence) rest

Follows-append :
    (m : Option ℕ) (xs ys : List AttemptEvent)
    → Follows m xs
    → Follows (last_sequence m xs) ys
    → Follows m (xs ++ ys)
Follows-append m [] ys h k = k
Follows-append m (e ∷ rest) ys h k = (h.0, Follows-append (some e.sequence) rest ys h.1 k)

last_sequence-append :
    (m : Option ℕ) (xs ys : List AttemptEvent)
    → last_sequence m (xs ++ ys) ≡ last_sequence (last_sequence m xs) ys
last_sequence-append m [] ys = refl
last_sequence-append m (e ∷ rest) ys = last_sequence-append (some e.sequence) rest ys

later_of-le : (m : Option ℕ) (n : ℕ) → n ≤ later_of m n
later_of-le none n = ground arith
later_of-le (some m) n = ground arith

later_of-last :
    (n : ℕ) (xs : List AttemptEvent)
    → Follows (some n) xs
    → some (later_of (max_sequence xs) n) ≡ last_sequence (some n) xs
later_of-last n [] h = refl
later_of-last n (e ∷ rest) h =
    let top = later_of (max_sequence rest) e.sequence in
    let bound : e.sequence ≤ top = later_of-le (max_sequence rest) e.sequence in
    let past : later_of (some top) n ≡ top = ground (arith, bound, h.0) in
    ap some past ∙ later_of-last e.sequence rest h.1

-- The largest sequence number of an ordered log is its last.
max_sequence-last :
    (xs : List AttemptEvent) → Follows none xs → max_sequence xs ≡ last_sequence none xs
max_sequence-last [] h = refl
max_sequence-last (e ∷ rest) h = later_of-last e.sequence rest h.1

stored_bytes-append :
    (xs ys : List AttemptEvent) → stored_bytes (xs ++ ys) ≡ stored_bytes xs + stored_bytes ys
stored_bytes-append [] ys = ground arith
stored_bytes-append (e ∷ rest) ys = ground (arith, stored_bytes-append rest ys)

event_rows-append :
    (env : Env) (id : ℕ) (xs ys : List Checked)
    → event_rows env id (xs ++ ys) ≡ event_rows env id xs ++ event_rows env id ys
unfolding event_rows
event_rows-append env id [] ys = refl
event_rows-append env id (e ∷ rest) ys = rw (event_rows-append env id rest ys)

select-append {ℓ} :
    {R : Type ℓ} (p : R → Bool) (xs ys : List R) → select p (xs ++ ys) ≡ select p xs ++ select p ys
select-append p [] ys = refl
select-append p (x ∷ xs) ys = ground (arith, select-append p xs ys)

select-event_rows :
    (env : Env) (id : ℕ) (es : List Checked)
    → select (of_attempt id) (event_rows env id es) ≡ event_rows env id es
unfolding event_rows
select-event_rows env id [] = refl
select-event_rows env id (e ∷ rest) = ground (arith, select-event_rows env id rest)

select-event_rows_other :
    (env : Env) (id other : ℕ) (es : List Checked)
    → other ≢ id
    → select (of_attempt other) (event_rows env id es) ≡ []
unfolding event_rows
select-event_rows_other env id other [] ne = refl
select-event_rows_other env id other (e ∷ rest) ne =
    ground (arith, select-event_rows_other env id other rest ne, ne)

-- What the loop over the checked events adds to its variables.
record Added (env : Env) (id : ℕ) (p q : Pending) : Type 0 where
  new : List Checked
  grown : q.fresh ≡ p.fresh ++ new
  highest : q.highest ≡ last_sequence p.highest (event_rows env id new)
  ordered : Follows p.highest (event_rows env id new)
  bytes : q.bytes ≡ p.bytes + stored_bytes (event_rows env id new)

Added-none : (env : Env) (id : ℕ) (p : Pending) → Added env id p p
unfolding event_rows
Added-none env id p = record {
  new = [];
  grown = sym (append-nil p.fresh);
  highest = refl;
  ordered = tt;
  bytes = ground arith;
}

Added-one :
    (env : Env) (id : ℕ) (event : Checked) (p : Pending)
    → exceeds event.sequence p.highest ≡ true
    → Added env id p (record {
      bytes = p.bytes + len event.payload;
      highest = some event.sequence;
      fresh = p.fresh ++ event ∷ [];
    })
unfolding event_rows
Added-one env id event p past = record {
  new = event ∷ [];
  grown = refl;
  highest = refl;
  ordered = (past, tt);
  bytes = ground arith;
}

Added-both :
    {env : Env} {id : ℕ} (p q r : Pending) → Added env id p q → Added env id q r → Added env id p r
Added-both {env} {id} p q r one two =
    let rows = event_rows-append env id one.new two.new in
    record {
      new = one.new ++ two.new;
      grown = two.grown ∙ ap (λ es. es ++ two.new) one.grown ∙ append_assoc p.fresh one.new two.new;
      highest =
          two.highest
          ∙ ap (λ m. last_sequence m (event_rows env id two.new)) one.highest
          ∙ sym (last_sequence-append p.highest (event_rows env id one.new) _)
          ∙ ap (last_sequence p.highest) (sym rows);
      ordered = subst (Follows p.highest) (sym rows) (
          Follows-append p.highest (event_rows env id one.new) _ one.ordered
            (subst (λ m. Follows m (event_rows env id two.new)) one.highest two.ordered));
      bytes = ground (
        arith,
        one.bytes,
        two.bytes,
        ap stored_bytes rows,
        stored_bytes-append (event_rows env id one.new) (event_rows env id two.new),
      );
    }

add_event-Added :
    (env : Env) (id : ℕ) (found : Option AttemptEvent) (event : Checked) (p q : Pending)
    → add_event found event p ≡ ok q
    → Added env id p q
unfolding add_event
add_event-Added env id none event p q h = elim (if-cases (exceeds event.sequence p.highest) _ _ h) [
  | inl (past, e) ↦ subst (Added env id p) (ok-injective e) (Added-one env id event p past)
  | inr (_, e) ↦ cc
]
add_event-Added env id (some e) event p q h =
    elim (if-cases (not (str_eq e.kind event.kind) || not (str_eq e.payload event.payload)) _ _ h) [
      | inl (_, e) ↦ cc
      | inr (_, e) ↦ subst (Added env id p) (ok-injective e) (Added-none env id p)
    ]

add_events-Added :
    (env : Env) (id : ℕ) (stored : List AttemptEvent) (events : List Checked) (p q : Pending)
    → add_events stored events p ≡ ok q
    → Added env id p q
unfolding add_events
add_events-Added env id stored [] p q h =
    subst (Added env id p) (ok-injective h) (Added-none env id p)
add_events-Added env id stored (event ∷ rest) p q h =
    let (mid, one, two) =
      >>=-eq-ok (add_event (event_at stored event.sequence) event p) (add_events stored rest) h in
    Added-both p mid q (add_event-Added env id (event_at stored event.sequence) event p mid one)
      (add_events-Added env id stored rest mid q two)

-- When events are appended to an attempt whose log is in order, its new log is the old one with rows
-- at its end, in order, and its payloads stay within the budget of 10 MiB; the log of any other attempt
-- is the one it was.
pub append_events-log :
    (json : Json) (env : Env) (id : ℕ) (input : EventBatchRequest) (db after : Db) (other : ℕ)
    → append_events json env id input db ≡ ok after
    → Follows none (log db id)
    → ((new : List AttemptEvent) × (log after id ≡ log db id ++ new))
      × Follows none (log after id)
      × (stored_bytes (log after id) ≤ max_attempt_event_bytes)
      × ((other ≡ id) ⊎ (log after other ≡ log db other))
append_events-log json env id input db after other h ordered =
    let s = append_events-Appended json env id input db after h in
    let a = add_events-Added env id (log db id) s.checked _ s.pending s.added in
    let new = event_rows env id a.new in
    let grown : log after id ≡ log db id ++ new =
      ap (λ d. log d id) s.written
      ∙ select-append (of_attempt id) db.events (event_rows env id s.pending.fresh)
      ∙ ap (λ r. log db id ++ r)
          (select-event_rows env id s.pending.fresh ∙ ap (event_rows env id) a.grown) in
    let follow : Follows (last_sequence none (log db id)) new =
      subst (λ m. Follows m new) (max_sequence-last (log db id) ordered) a.ordered in
    (
      (new, grown),
      subst (Follows none) (sym grown) (Follows-append none (log db id) new ordered follow),
      ground (
        arith,
        ap stored_bytes grown,
        stored_bytes-append (log db id) new,
        a.bytes,
        s.within_budget,
      ),
      elim (Bool-cases (other == id)) [
        | inl same ↦ inl (ground (arith, same))
        | inr ne ↦ inr (
            ap (λ d. log d other) s.written
            ∙ select-append (of_attempt other) db.events (event_rows env id s.pending.fresh)
            ∙ ap (λ r. log db other ++ r)
                (select-event_rows_other env id other s.pending.fresh (λ e. ground (arith, ne, e)))
            ∙ append-nil (log db other))
      ],
    )
