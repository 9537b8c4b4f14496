-- ===== src/Store/Examples.antt =====
-- One attempt at work, completed by its owner: the theorems at concrete inputs, and tests.
mod Calls
use not_so_simple_software_f.Prelude.{ℕ, ◌≡◌, refl, true, false, String, [], ◌∷◌, none, some, arith}
use not_so_simple_software_f.Service.{ok}
use not_so_simple_software_f.Store.States.{
  AttemptState, ExecutionState, SessionState, StageRunState, persistent, worker_attempt, owner_none,
  process_exit, verdict_none,
}
use not_so_simple_software_f.Store.Rows.{Attempt, Execution, Session, StageRun, Run, Db, Env}
use not_so_simple_software_f.Store.Cost.{Models, no_cost, attempt_cost_columns}
use not_so_simple_software_f.Store.Lease.{
  attempt_of, load_lease, verify_active_lease, validate_token, update_run_lifecycle,
}
use not_so_simple_software_f.Store.Sweep.{sweep_expired}
use not_so_simple_software_f.Store.Events.{Json}
use not_so_simple_software_f.Store.Complete.Outcome.{
  CompleteAttemptRequest, reported_outcome, resolve,
}
use not_so_simple_software_f.Store.Complete.Sessions.{finish_session_rows, may_finish, finished}
use not_so_simple_software_f.Store.Complete.{
  check_request, complete_attempt, complete_owned, complete_active, completed_db, finish_rows,
  finish_stages, fail_last_stage, complete_only_stage, counted_successes, stop_stages,
}
use not_so_simple_software_f.Store.Complete.Replay.{complete_attempt-idempotent}
use not_so_simple_software_f.Store.Lockstep.{Lockstep}
use not_so_simple_software_f.Store.Steps.{Moves, Reach, here, next, completing, sweeping}
use not_so_simple_software_f.Store.Steps.Reachable.{Reach-Lockstep, Reach-terminal, Reach-Moves}

abbrev pub token : String
token = "0123456789abcdef0123456789abcdef"

abbrev pub running_attempt : Attempt
running_attempt = record {
  id = 1;
  execution_id = 10;
  worker_id = 7;
  attempt_number = 1;
  state = AttemptState.running;
  lease_digest = token;
  lease_expires_at = 30000;
  supervisor_pid = some 4242;
  process_identity = none;
  process_group_id = none;
  result = none;
  error = none;
  started_at = some 100;
  completed_at = none;
  cost = no_cost;
}

abbrev pub running_execution : Execution
running_execution = record {
  id = 10;
  session_id = 20;
  state = ExecutionState.running;
  cancellation_requested = false;
  updated_at = 100;
}

abbrev pub running_session : Session
running_session = record {
  id = 20;
  run_id = 30;
  state = SessionState.running;
  execution_backend = persistent;
  execution_owner = worker_attempt;
  started_at = some 100;
  terminal_at = none;
  result = none;
  failure_reason = none;
  terminal_message = "";
  question = "";
  answer = "";
  answered_by = "";
  checkpoint_sha = "";
  pending_resume_sha = "";
  checkpoint_published = false;
  pull_request_url = "";
  pull_request_head_branch = "";
  pull_request_head_sha = "";
}

abbrev pub running_stage : StageRun
running_stage = record {
  session_id = 20;
  position = 0;
  state = StageRunState.running;
  result = "";
  error = "";
  review_verdict = verdict_none;
  started_at = some 100;
  completed_at = none;
  cost = no_cost;
}

abbrev pub open_run : Run
open_run = record { id = 30; outcome_contract = process_exit; updated_at = 100; terminal_at = none }

abbrev pub running_db : Db
running_db = record {
  attempts = running_attempt ∷ [];
  executions = running_execution ∷ [];
  sessions = running_session ∷ [];
  stages = running_stage ∷ [];
  runs = open_run ∷ [];
  events = [];
  updates = [];
  claims = [];
}

-- SHA-256 replaced by the identity.
abbrev pub at_time : ℕ → Env
at_time now = record { now = now; digest_token = λ t. t }

abbrev pub encode : Models → String
encode models = "{}"

abbrev pub json : Json
json = record { encoded_len = λ input. 100; is_valid = λ text. true }

abbrev pub success : CompleteAttemptRequest
success = record {
  lease_token = token;
  state = "succeeded";
  result = "done";
  error = "";
  cost = record { cost_usd = none; usage = none; models = none };
}

abbrev pub succeeded_attempt : Attempt
succeeded_attempt = record running_attempt {
  state = AttemptState.succeeded;
  result = some "done";
  completed_at = some 500;
}

abbrev pub succeeded_db : Db
succeeded_db = record running_db {
  attempts = succeeded_attempt ∷ [];
  executions = record running_execution { state = ExecutionState.succeeded; updated_at = 500 } ∷ [];
  sessions =
      record running_session {
        state = SessionState.succeeded;
        terminal_at = some 500;
        result = some "done";
        execution_owner = owner_none;
      }
      ∷ [];
  stages =
      record running_stage {
        state = StageRunState.succeeded;
        result = "done";
        completed_at = some 500;
      }
      ∷ [];
  runs = record open_run { updated_at = 500; terminal_at = some 500 } ∷ [];
}

pub success_completes :
    complete_attempt encode (at_time 500) 1 success running_db
    ≡ ok (succeeded_db, succeeded_attempt)
unfolding complete_attempt check_request attempt_cost_columns validate_token load_lease
    complete_owned verify_active_lease reported_outcome resolve complete_active completed_db
    finish_rows finish_session_rows may_finish finished finish_stages fail_last_stage
    complete_only_stage counted_successes stop_stages update_run_lifecycle
success_completes = refl

complete_attempt-idempotent_example :
    complete_attempt encode (at_time 900000) 1 success succeeded_db
    ≡ ok (succeeded_db, succeeded_attempt)
complete_attempt-idempotent_example =
    complete_attempt-idempotent encode (at_time 500) 900000 1 success running_db
      (succeeded_db, succeeded_attempt) success_completes

pub running_db-Lockstep : Lockstep running_db
running_db-Lockstep = record {
  linked = λ i a h active. record {
    execution = running_execution;
    session = running_session;
    has_execution = ground arith;
    has_session = refl;
    agreeing = ground arith;
  };
  one_active = λ i j a b ha hb aa ab e. ground arith;
  one_execution = λ i j d e hd he s. ground arith;
}

completes_once : Reach encode json running_db succeeded_db
completes_once =
    next here
      (completing (at_time 500) 1 success (succeeded_db, succeeded_attempt) success_completes)

Reach-Lockstep_example : Lockstep succeeded_db
Reach-Lockstep_example =
    Reach-Lockstep encode json running_db succeeded_db running_db-Lockstep completes_once

Reach-terminal_example :
    attempt_of (sweep_expired (at_time 900000) succeeded_db).0 1 ≡ some succeeded_attempt
Reach-terminal_example =
    Reach-terminal encode json succeeded_db (sweep_expired (at_time 900000) succeeded_db).0 1
      succeeded_attempt refl refl (next here (sweeping (at_time 900000)))

Reach-Moves_example :
    (b : Attempt) × (attempt_of succeeded_db 1 ≡ some b) × Moves AttemptState.running b.state
Reach-Moves_example =
    Reach-Moves encode json running_db succeeded_db 1 running_attempt refl completes_once
