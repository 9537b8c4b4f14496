-- ===== src/Store/Complete/Outcome.antt =====
-- What a completion becomes (CompleteAttempt in factory/internal/controlplane/state.go, attemptOutcome
-- in work.go): the cancellation, the outcome that the agent reported, or the state as it was sent.
use not_so_simple_software_f.Prelude.{
  ℕ, Bool, true, false, ◌&&◌, String, Option, none, some, ◌==◌, str_eq, if◌then◌else◌,
}
use not_so_simple_software_f.Table.{find_row}
use not_so_simple_software_f.Service.{Result, ok, err, conflict}
use not_so_simple_software_f.Store.States.{
  AttemptState, SessionState, OutcomeContract, process_exit, agent_update, WorkUpdateStatus,
}
use not_so_simple_software_f.Store.Rows.{WorkUpdate, Db}
use not_so_simple_software_f.Store.Cost.{ReportedCost}
use not_so_simple_software_f.Store.Lease.{LeaseState}

pub record CompleteAttemptRequest : Type 0 where
  pub lease_token : String
  pub state : String
  pub result : String
  pub error : String
  pub cost : ReportedCost

abbrev pub completed_attempt_state : String → Option AttemptState
completed_attempt_state text =
    if str_eq text "succeeded"
    then some AttemptState.succeeded
    else if str_eq text "failed"
    then some AttemptState.failed
    else if str_eq text "cancelled"
    then some AttemptState.cancelled
    else none

abbrev pub is_success : AttemptState → Bool
is_success AttemptState.succeeded = true
is_success _ = false

-- The variables that CompleteAttempt settles before it writes.
pub record Completion : Type 0 where
  pub state : AttemptState
  pub result : String
  pub error : String
  pub work_state : SessionState
  pub failure_reason : String
  pub terminal_message : String
  pub missing_outcome : Bool
  pub outcome : Option WorkUpdate

abbrev is_of : Option ℕ → ℕ → Bool
is_of none id = false
is_of (some j) id = j == id

abbrev is_report : WorkUpdateStatus → Bool
is_report WorkUpdateStatus.running = false
is_report _ = true

unfoldable pub attempt_outcome : Db → ℕ → Option WorkUpdate
attempt_outcome db id = find_row (λ u. is_of u.attempt_id id && is_report u.status) db.updates

abbrev outcome_under : OutcomeContract → Option WorkUpdate → Option WorkUpdate
outcome_under process_exit reported = none
outcome_under agent_update reported = reported

-- Only the agent-update contract reads the report.
unfoldable pub reported_outcome : LeaseState → Db → ℕ → Option WorkUpdate
unfolding attempt_outcome
reported_outcome lease db id = outcome_under lease.outcome_contract (attempt_outcome db id)

abbrev pub missing_outcome_message : String
missing_outcome_message = "Agent exited without reporting an outcome."

-- WorkState(input.State)
abbrev pub work_state_of : AttemptState → SessionState
work_state_of AttemptState.succeeded = SessionState.succeeded
work_state_of AttemptState.cancelled = SessionState.cancelled
work_state_of _ = SessionState.failed

unfoldable pub as_sent : Option WorkUpdate → AttemptState → CompleteAttemptRequest → Completion
as_sent outcome to input = record {
  state = to;
  result = input.result;
  error = input.error;
  work_state = work_state_of to;
  failure_reason = input.error;
  terminal_message = "";
  missing_outcome = false;
  outcome = outcome;
}

unfoldable pub as_cancelled : Option WorkUpdate → Completion
as_cancelled outcome = record {
  state = AttemptState.cancelled;
  result = "";
  error = "";
  work_state = SessionState.cancelled;
  failure_reason = "";
  terminal_message = "Cancelled by operator.";
  missing_outcome = false;
  outcome = outcome;
}

unfoldable pub as_missing : Completion
as_missing = record {
  state = AttemptState.failed;
  result = "";
  error = missing_outcome_message;
  work_state = SessionState.failed;
  failure_reason = missing_outcome_message;
  terminal_message = missing_outcome_message;
  missing_outcome = true;
  outcome = none;
}

as_reported : WorkUpdate → SessionState → String → Completion
as_reported u work_state failure_reason = record {
  state = AttemptState.succeeded;
  result = "";
  error = "";
  work_state = work_state;
  failure_reason = failure_reason;
  terminal_message = u.message;
  missing_outcome = false;
  outcome = some u;
}

-- The switch on the reported status; the failure reason is the error that was sent, but for `failed`.
by_status : CompleteAttemptRequest → WorkUpdate → WorkUpdateStatus → Result Completion
unfolding as_reported
by_status input u WorkUpdateStatus.ready = ok (as_reported u SessionState.ready input.error)
by_status input u WorkUpdateStatus.needs_input =
    ok (as_reported u SessionState.needs_input input.error)
by_status input u WorkUpdateStatus.failed = ok (as_reported u SessionState.failed u.message)
by_status input u WorkUpdateStatus.no_change = ok (as_reported u SessionState.no_change input.error)
by_status input u WorkUpdateStatus.running = err (conflict "outcome_missing")
by_status input u WorkUpdateStatus.merged = err (conflict "outcome_missing")

success_report : CompleteAttemptRequest → Option WorkUpdate → Result Completion
unfolding by_status as_missing
success_report input none = ok as_missing
success_report input (some u) = by_status input u u.status

under_contract :
    OutcomeContract → Option WorkUpdate → AttemptState → CompleteAttemptRequest → Result Completion
unfolding as_sent success_report
under_contract process_exit outcome to input = ok (as_sent outcome to input)
under_contract agent_update outcome to input =
    if is_success to then success_report input outcome else ok (as_sent outcome to input)

unfoldable pub resolve :
    LeaseState → Option WorkUpdate → AttemptState → CompleteAttemptRequest → Result Completion
unfolding under_contract as_cancelled
resolve lease outcome to input =
    if lease.cancel
    then ok (as_cancelled outcome)
    else under_contract lease.outcome_contract outcome to input
