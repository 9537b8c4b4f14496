-- ===== src/Store/Examples/Calls.antt =====
-- A Pipeline of two stages at work, and a log that grows: the theorems at concrete inputs, and tests.
use not_so_simple_software_f.Prelude.{
  ℕ, ◌≤◌, ◌≡◌, refl, true, false, List, [], ◌∷◌, ◌++◌, none, some, pos, negsuc, ◌⊎◌, length,
}
use not_so_simple_software_f.Service.{ok}
use not_so_simple_software_f.Store.States.{
  AttemptState, ExecutionState, StageRunState, process_exit,
}
use not_so_simple_software_f.Store.Rows.{Session, StageRun, AttemptEvent, Db}
use not_so_simple_software_f.Store.Cost.{attempt_cost_columns}
use not_so_simple_software_f.Store.Lease.{
  LeaseState, session_of, load_lease, verify_active_lease, validate_token,
}
use not_so_simple_software_f.Store.Stages.{
  StartStageRequest, start_stage, start_stage_rows, CompleteStageRequest, complete_stage,
  check_completion, store_completion, complete_stage_rows,
}
use not_so_simple_software_f.Store.Stages.Order.{
  Before, start_stage-Before, NoneWaiting, complete_stage-NoneWaiting,
}
use not_so_simple_software_f.Store.Complete.Outcome.{
  Completion, completed_attempt_state, resolve, reported_outcome,
}
use not_so_simple_software_f.Store.Complete.Endings.{Ended, complete_attempt-Ended}
use not_so_simple_software_f.Store.Complete.Successes.{AllSucceeded, complete_attempt-AllSucceeded}
use not_so_simple_software_f.Store.Events.{
  EventBatchRequest, append_events, check_events, check_event, follows, is_blank, is_space,
  add_events, add_event, event_rows, log, stored_bytes, max_attempt_event_bytes,
}
use not_so_simple_software_f.Store.Events.Log.{Follows, append_events-log}
use not_so_simple_software_f.Store.Events.Page.{
  AttemptEventPage, events, order_by_sequence, insert_by_sequence,
}
use not_so_simple_software_f.Store.Events.Paging.{events-page}
use not_so_simple_software_f.Store.Examples.{
  token, at_time, encode, json, success, running_attempt, running_stage, running_db,
  running_db-Lockstep, succeeded_db, succeeded_attempt, success_completes,
}

abbrev running_lease : LeaseState
running_lease = record {
  attempt_state = AttemptState.running;
  execution_id = 10;
  execution_state = ExecutionState.running;
  session_id = 20;
  run_id = 30;
  outcome_contract = process_exit;
  digest = token;
  expiry = 30000;
  cancel = false;
}

running_lease_read : load_lease running_db 1 ≡ ok running_lease
unfolding load_lease
running_lease_read = refl

complete_attempt-AllSucceeded_example : AllSucceeded 20 succeeded_db.stages
complete_attempt-AllSucceeded_example =
    complete_attempt-AllSucceeded encode (at_time 500) 1 success running_db
      (succeeded_db, succeeded_attempt) running_lease success_completes running_lease_read refl refl

complete_attempt-Ended_example :
    (to : AttemptState) × (c : Completion) × (completed_attempt_state "succeeded" ≡ some to)
    × (resolve running_lease (reported_outcome running_lease running_db 1) to success ≡ ok c)
    × (AttemptState.succeeded ≡ c.state)
    × ((s : Session) × (session_of succeeded_db 20 ≡ some s) × Ended (at_time 500) c s)
complete_attempt-Ended_example =
    complete_attempt-Ended encode (at_time 500) 1 success running_db
      (succeeded_db, succeeded_attempt) running_lease running_db-Lockstep success_completes
      running_lease_read refl

abbrev done_stage : StageRun
done_stage = record running_stage { state = StageRunState.succeeded; completed_at = some 200 }

abbrev review_stage : StageRun
review_stage = record running_stage {
  position = 1;
  state = StageRunState.pending;
  started_at = none;
}

-- The first stage is done, and the second is next.
abbrev reviewing_db : Db
reviewing_db = record running_db { stages = done_stage ∷ review_stage ∷ [] }

abbrev start_review : StartStageRequest
start_review = record {
  lease_token = token;
  supervisor_pid = some 4242;
  process_identity = "";
  process_group_id = none;
}

abbrev started_review : StageRun
started_review = record review_stage { state = StageRunState.running; started_at = some 500 }

abbrev started_db : Db
started_db = record reviewing_db { stages = done_stage ∷ started_review ∷ [] }

review_starts :
    start_stage (at_time 500) 1 1 start_review reviewing_db ≡ ok (started_db, started_review)
unfolding start_stage start_stage_rows load_lease verify_active_lease validate_token
review_starts = refl

reviewing_lease_read : load_lease reviewing_db 1 ≡ ok running_lease
unfolding load_lease
reviewing_lease_read = refl

start_stage-Before_example :
    Before 20 1 reviewing_db.stages
    × Before 20 1 started_db.stages
    × (StageRunState.running ≡ StageRunState.running)
start_stage-Before_example =
    start_stage-Before (at_time 500) 1 1 start_review reviewing_db (started_db, started_review)
      running_lease review_starts reviewing_lease_read

-- The first stage runs, and the second waits for it.
abbrev implementing_db : Db
implementing_db = record running_db { stages = running_stage ∷ review_stage ∷ [] }

abbrev failure : CompleteStageRequest
failure = record {
  lease_token = token;
  state = "failed";
  result = "";
  error = "no build";
  review_verdict = "";
  cost = record { cost_usd = none; usage = none; models = none };
}

abbrev failed_stage : StageRun
failed_stage = record running_stage {
  state = StageRunState.failed;
  error = "no build";
  completed_at = some 500;
}

abbrev stopped_db : Db
stopped_db = record running_db {
  stages =
      failed_stage
      ∷ record review_stage { state = StageRunState.cancelled; completed_at = some 500 }
      ∷ [];
}

implementation_fails :
    complete_stage encode (at_time 500) 1 0 failure implementing_db ≡ ok (stopped_db, failed_stage)
unfolding complete_stage check_completion store_completion complete_stage_rows load_lease
    verify_active_lease validate_token attempt_cost_columns
implementation_fails = refl

implementing_lease_read : load_lease implementing_db 1 ≡ ok running_lease
unfolding load_lease
implementing_lease_read = refl

complete_stage-NoneWaiting_example : NoneWaiting 20 0 stopped_db.stages
complete_stage-NoneWaiting_example =
    complete_stage-NoneWaiting encode (at_time 500) 1 0 failure implementing_db
      (stopped_db, failed_stage) running_lease running_stage StageRunState.failed
      implementation_fails implementing_lease_read refl refl refl refl

-- Two events that arrive.
abbrev two_events : EventBatchRequest
two_events = record {
  lease_token = token;
  events =
      record { sequence = pos 0; kind = "output"; payload = "1" }
      ∷ record { sequence = pos 5; kind = "output"; payload = "22" }
      ∷ [];
}

abbrev first_event : AttemptEvent
first_event = record {
  attempt_id = 1;
  sequence = 0;
  kind = "output";
  payload = "1";
  server_time = 500;
}

abbrev second_event : AttemptEvent
second_event = record first_event { sequence = 5; payload = "22" }

abbrev logged_db : Db
logged_db = record running_db { events = first_event ∷ second_event ∷ [] }

events_arrive : append_events json (at_time 500) 1 two_events running_db ≡ ok logged_db
unfolding append_events check_events check_event follows is_blank is_space load_lease
    verify_active_lease validate_token add_events add_event event_rows
events_arrive = refl

abbrev other_attempt : ℕ
other_attempt = 2

append_events-log_example :
    ((new : List AttemptEvent) × (log logged_db 1 ≡ [] ++ new))
    × Follows none (log logged_db 1)
    × (stored_bytes (log logged_db 1) ≤ max_attempt_event_bytes)
    × ((other_attempt ≡ 1) ⊎ (log logged_db 2 ≡ log running_db 2))
append_events-log_example =
    append_events-log json (at_time 500) 1 two_events running_db logged_db 2 events_arrive tt

abbrev first_page : AttemptEventPage
first_page = record { events = first_event ∷ []; next_after = pos 0; has_more = true }

first_page_read : events logged_db 1 (negsuc 0) (pos 1) ≡ ok first_page
unfolding events order_by_sequence insert_by_sequence
first_page_read = refl

events-page_example :
    (first_event ∷ second_event ∷ [] ≡ log logged_db 1)
    × (1 ≤ 1)
    × (true ≡ true)
    × ((true ≡ false) ⊎ (length (first_event ∷ []) ≡ 1))
events-page_example =
    events-page logged_db 1 (negsuc 0) 1 first_page first_page_read (refl, (refl, tt))

abbrev lost_db : Db
lost_db = record running_db { attempts = record running_attempt { state = AttemptState.lost } ∷ [] }
