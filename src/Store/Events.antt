-- ===== src/Store/Events.antt =====
-- The event log of an attempt: AppendEvents and Events (factory/internal/controlplane/state.go).
-- JSON's encoder and validator are parameters.
pub mod Append
pub mod Log
pub mod Page
pub mod Paging
use Prim.Native.Char.{code}
use not_so_simple_software_f.Prelude.{
  ℕ, suc, ◌+◌, Bool, true, false, not, ◌||◌, ◌&&◌, String, len, Option, none, some, List, [], ◌∷◌,
  ◌++◌, ltb, leb, ◌==◌, str_eq, ℤ, pos, negsuc, length, take, if◌then◌else◌,
}
use not_so_simple_software_f.Table.{find_row, select, exists_where}
use not_so_simple_software_f.Service.{
  ServiceError, Result, ok, err, conflict, invalid, err_not_found, or_refuse, refuse_if, ◌>>=◌,
  ◌>>◌,
}
use not_so_simple_software_f.Store.Rows.{AttemptEvent, Db, Env}
use not_so_simple_software_f.Store.Lease.{load_lease, verify_active_lease}

abbrev pub max_events_per_batch : ℕ
max_events_per_batch = 100

abbrev pub max_event_batch_bytes : ℕ
max_event_batch_bytes = 262144

abbrev pub max_event_bytes : ℕ
max_event_bytes = 65536

abbrev pub max_attempt_event_bytes : ℕ
max_attempt_event_bytes = 10485760

abbrev pub max_event_page_size : ℕ
max_event_page_size = 500

-- protocol.AttemptEvent, as a Worker sends it.
pub record Event : Type 0 where
  pub sequence : ℤ
  pub kind : String
  pub payload : String

pub record EventBatchRequest : Type 0 where
  pub lease_token : String
  pub events : List Event

-- encoding/json: the length of an encoded request, and json.Valid.
pub record Json : Type 0 where
  pub encoded_len : EventBatchRequest → ℕ
  pub is_valid : String → Bool

-- unicode.IsSpace
unfoldable pub is_space : ℕ → Bool
is_space c =
    leb 9 c && leb c 13
    || c == 32
    || c == 0x85
    || c == 0xA0
    || c == 0x1680
    || leb 0x2000 c && leb c 0x200A
    || c == 0x2028
    || c == 0x2029
    || c == 0x202F
    || c == 0x205F
    || c == 0x3000

-- strings.TrimSpace(text) == ""
unfoldable pub is_blank : String → Bool
unfolding is_space
is_blank String.[] = true
is_blank (String.◌∷◌ c s) = is_space (code c) && is_blank s

-- A valid event's sequence; `previous` is `none` for -1.
unfoldable pub follows : ℤ → Option ℕ → Option ℕ
follows (negsuc n) previous = none
follows (pos n) none = some n
follows (pos n) (some m) = if leb n m then none else some n

-- A checked event: its sequence is not negative.
pub record Checked : Type 0 where
  pub sequence : ℕ
  pub kind : String
  pub payload : String

unfoldable pub check_event : Json → Option ℕ → Event → Result Checked
unfolding follows is_blank
check_event json previous event = do
  n ← or_refuse (follows event.sequence previous) (invalid "invalid_event")
  refuse_if (is_blank event.kind || ltb 100 (len event.kind)) (invalid "invalid_event")
  refuse_if (ltb max_event_bytes (len event.payload)) (invalid "event_too_large")
  refuse_if (not (json.is_valid event.payload)) (invalid "invalid_event")
  ok (record { sequence = n; kind = event.kind; payload = event.payload })

-- The loop over the batch that touches no storage.
unfoldable pub check_events : Json → Option ℕ → List Event → Result (List Checked)
unfolding check_event
check_events json previous [] = ok []
check_events json previous (event ∷ rest) = do
  e ← check_event json previous event
  later ← check_events json (some e.sequence) rest
  ok (e ∷ later)

abbrev pub of_attempt : ℕ → AttemptEvent → Bool
of_attempt id e = e.attempt_id == id

-- COALESCE(SUM(payload_bytes), 0)
abbrev pub stored_bytes : List AttemptEvent → ℕ
stored_bytes [] = 0
stored_bytes (e ∷ rest) = len e.payload + stored_bytes rest

abbrev pub later_of : Option ℕ → ℕ → ℕ
later_of none n = n
later_of (some m) n = if ltb n m then m else n

-- COALESCE(MAX(sequence), -1), with `none` for -1.
abbrev pub max_sequence : List AttemptEvent → Option ℕ
max_sequence [] = none
max_sequence (e ∷ rest) = some (later_of (max_sequence rest) e.sequence)

abbrev pub exceeds : ℕ → Option ℕ → Bool
exceeds n none = true
exceeds n (some m) = ltb m n

-- The variables of the loop over the checked events.
pub record Pending : Type 0 where
  pub bytes : ℕ
  pub highest : Option ℕ
  pub fresh : List Checked

-- One turn: a replayed event must be the stored one, a new one must follow them all.
unfoldable pub add_event : Option AttemptEvent → Checked → Pending → Result Pending
add_event (some e) event p =
    if not (str_eq e.kind event.kind) || not (str_eq e.payload event.payload)
    then err (conflict "event_conflict")
    else ok p
add_event none event p =
    if exceeds event.sequence p.highest
    then ok (record {
      bytes = p.bytes + len event.payload;
      highest = some event.sequence;
      fresh = p.fresh ++ event ∷ [];
    })
    else err (conflict "event_out_of_order")

-- SELECT ... WHERE sequence = ?
abbrev pub event_at : List AttemptEvent → ℕ → Option AttemptEvent
event_at stored sequence = find_row (λ e. e.sequence == sequence) stored

unfoldable pub add_events : List AttemptEvent → List Checked → Pending → Result Pending
unfolding add_event
add_events stored [] p = ok p
add_events stored (event ∷ rest) p = do
  q ← add_event (event_at stored event.sequence) event p
  add_events stored rest q

abbrev pub event_budget_exceeded : ServiceError
event_budget_exceeded = record { code = "event_budget_exceeded"; status = 413 }

abbrev pub event_row : Env → ℕ → Checked → AttemptEvent
event_row env id e = record {
  attempt_id = id;
  sequence = e.sequence;
  kind = e.kind;
  payload = e.payload;
  server_time = env.now;
}

unfoldable pub event_rows : Env → ℕ → List Checked → List AttemptEvent
event_rows env id [] = []
event_rows env id (e ∷ rest) = event_row env id e ∷ event_rows env id rest

-- The rows of one attempt.
abbrev pub log : Db → ℕ → List AttemptEvent
log db id = select (of_attempt id) db.events

unfoldable pub append_events : Json → Env → ℕ → EventBatchRequest → Db → Result Db
append_events json env id input db = do
  refuse_if (length input.events == 0 || ltb max_events_per_batch (length input.events))
      (invalid "invalid_event_batch")
  refuse_if (ltb max_event_batch_bytes (json.encoded_len input)) (invalid "event_batch_too_large")
  checked ← check_events json none input.events
  lease ← load_lease db id
  verify_active_lease env lease input.lease_token
  let stored = log db id
  pending ←
      add_events stored checked
        (record { bytes = stored_bytes stored; highest = max_sequence stored; fresh = [] })
  refuse_if (ltb max_attempt_event_bytes pending.bytes) event_budget_exceeded
  ok (record db { events = db.events ++ event_rows env id pending.fresh })
