-- ===== src/Store/Complete.antt =====
-- CompleteAttempt (factory/internal/controlplane/state.go), up to the commit of its transaction. What
-- follows the commit, maybeAutoMerge, is another transaction.
pub mod Outcome
pub mod Sessions
pub mod Laws
pub mod Replay
pub mod Successes
pub mod Endings
use not_so_simple_software_f.Prelude.{
  ℕ, zero, suc, ◌+◌, Bool, true, false, not, ◌||◌, ◌&&◌, String, len, Option, none, some, List, [],
  ◌∷◌, ltb, ◌==◌, str_eq, if◌then◌else◌,
}
use not_so_simple_software_f.Table.{update_where, count_where}
use not_so_simple_software_f.Service.{
  ServiceError, Result, ok, err, conflict, invalid, or_not_found, or_refuse, refuse_if, ◌>>=◌, ◌>>◌,
}
use not_so_simple_software_f.Store.States.{
  AttemptState, ExecutionState, StageRunState, is_active, is_terminal, is_running,
}
use not_so_simple_software_f.Store.States.Execution
use not_so_simple_software_f.Store.States.Stage
use not_so_simple_software_f.Store.Rows.{Attempt, AttemptCost, StageRun, Db, Env}
use not_so_simple_software_f.Store.Cost.{Models, attempt_cost_columns}
use not_so_simple_software_f.Store.Lease.{
  LeaseState, load_lease, validate_token, verify_active_lease, update_run_lifecycle, attempt_of,
  null_string, coalesce,
}
use not_so_simple_software_f.Store.Stages.{max_result_bytes, max_error_bytes}
use Outcome.{
  CompleteAttemptRequest, Completion, completed_attempt_state, is_success, reported_outcome,
  resolve,
}
use Sessions.{finish_session_rows}

-- MAX(position) over the stages of a session.
abbrev pub last_position : ℕ → List StageRun → Option ℕ
last_position session_id [] = none
last_position session_id (g ∷ rest) =
    let later = last_position session_id rest in
    if g.session_id == session_id
    then elim later [
      | none ↦ some g.position
      | some p ↦ some (if ltb p g.position then g.position else p)
    ]
    else later

abbrev pub is_at : Option ℕ → ℕ → Bool
is_at none position = false
is_at (some p) position = p == position

-- The last stage reported success, and no outcome came with it.
unfoldable pub fail_last_stage : Env → LeaseState → Completion → List StageRun → List StageRun
fail_last_stage env lease c stages =
    if c.missing_outcome
    then update_where
        (λ g.
          g.session_id == lease.session_id
          && is_at (last_position lease.session_id stages) g.position
          && Stage.is_succeeded g.state)
        (λ g. record g {
          state = StageRunState.failed;
          error = c.error;
          completed_at = some env.now;
        })
        stages
    else stages

abbrev pub stage_count : ℕ → List StageRun → ℕ
stage_count session_id stages = count_where (λ g. g.session_id == session_id) stages

abbrev pub succeeded_stages : ℕ → List StageRun → ℕ
succeeded_stages session_id stages =
    count_where (λ g. g.session_id == session_id && Stage.is_succeeded g.state) stages

abbrev pub only_stage : ℕ → StageRun → Bool
only_stage session_id g =
    g.session_id == session_id && g.position == 0 && Stage.is_unfinished g.state

-- A one-stage Pipeline may be completed by its attempt alone.
abbrev pub completes_only_stage : LeaseState → Completion → List StageRun → Bool
completes_only_stage lease c stages =
    is_success c.state
    && stage_count lease.session_id stages == 1
    && succeeded_stages lease.session_id stages == 0

unfoldable pub complete_only_stage : Env → LeaseState → Completion → List StageRun → List StageRun
complete_only_stage env lease c stages =
    if completes_only_stage lease c stages
    then update_where (only_stage lease.session_id)
        (λ g. record g {
          state = StageRunState.succeeded;
          result = c.result;
          error = "";
          started_at = coalesce g.started_at env.now;
          completed_at = some env.now;
        })
        stages
    else stages

-- succeededStages after that: the count that was read, and the rows that the update changed.
unfoldable pub counted_successes : LeaseState → Completion → List StageRun → ℕ
counted_successes lease c stages =
    if completes_only_stage lease c stages
    then succeeded_stages lease.session_id stages + count_where (only_stage lease.session_id) stages
    else succeeded_stages lease.session_id stages

abbrev pub stopped_stage_state : AttemptState → StageRunState
stopped_stage_state AttemptState.cancelled = StageRunState.cancelled
stopped_stage_state _ = StageRunState.failed

-- An attempt that did not succeed ends its running stage and cancels the pending ones.
unfoldable pub stop_stages : Env → LeaseState → Completion → List StageRun → List StageRun
stop_stages env lease c stages =
    if not (is_success c.state) && ltb 0 (stage_count lease.session_id stages)
    then update_where (λ g. g.session_id == lease.session_id && Stage.is_unfinished g.state)
        (λ g. record g {
          state =
              if Stage.is_running g.state
              then stopped_stage_state c.state
              else StageRunState.cancelled;
          error = if Stage.is_running g.state then c.error else g.error;
          completed_at = some env.now;
        })
        stages
    else stages

abbrev pub execution_state_of : AttemptState → ExecutionState
execution_state_of AttemptState.succeeded = ExecutionState.succeeded
execution_state_of AttemptState.cancelled = ExecutionState.cancelled
execution_state_of _ = ExecutionState.failed

-- The updates of the attempt, its execution and its session.
unfoldable pub finish_rows : Env → ℕ → LeaseState → AttemptCost → Completion → Db → Db
finish_rows env id lease cost c db = record db {
  attempts =
      update_where (λ a. a.id == id && is_active a.state)
        (λ a. record a {
          state = c.state;
          result = null_string c.result;
          error = null_string c.error;
          completed_at = some env.now;
          cost = cost;
        })
        db.attempts;
  executions =
      update_where (λ e. e.id == lease.execution_id && Execution.is_active e.state)
        (λ e. record e { state = execution_state_of c.state; updated_at = env.now }) db.executions;
  sessions = finish_session_rows env lease.session_id c db.sessions;
}

-- The stages that the transaction leaves.
unfoldable pub finish_stages : Env → LeaseState → Completion → List StageRun → List StageRun
finish_stages env lease c stages =
    let failed = fail_last_stage env lease c stages in
    stop_stages env lease c (complete_only_stage env lease c failed)

-- All Pipeline stages must succeed before the attempt can.
abbrev pub is_incomplete : Env → LeaseState → Completion → List StageRun → Bool
is_incomplete env lease c stages =
    let failed = fail_last_stage env lease c stages in
    is_success c.state
    && ltb 0 (stage_count lease.session_id failed)
    && not (counted_successes lease c failed == stage_count lease.session_id failed)

unfoldable pub completed_db : Env → ℕ → LeaseState → AttemptCost → Completion → Db → Db
completed_db env id lease cost c db =
    update_run_lifecycle env lease
      (finish_rows env id lease cost c (record db { stages = finish_stages env lease c db.stages }))

-- The transaction of an active attempt, from the resolved completion on.
unfoldable pub complete_active :
    Env → ℕ → LeaseState → AttemptCost → Completion → Db → Result (Db × Attempt)
complete_active env id lease cost c db = do
  refuse_if (is_success c.state && not (is_running lease.attempt_state))
      (conflict "invalid_transition")
  refuse_if (is_incomplete env lease c db.stages) (conflict "pipeline_incomplete")
  let after = completed_db env id lease cost c db
  attempt ← or_not_found (attempt_of after id)
  ok (after, attempt)

abbrev pub result_too_large : ServiceError
result_too_large = record { code = "result_too_large"; status = 413 }

abbrev pub is_lost : AttemptState → Bool
is_lost AttemptState.lost = true
is_lost _ = false

-- The checks on the request alone: the state that it asks for, and its cost columns.
unfoldable pub check_request :
    (Models → String) → CompleteAttemptRequest → Result (AttemptState × AttemptCost)
check_request encode input = do
  to ← or_refuse (completed_attempt_state input.state) (invalid "invalid_terminal_state")
  refuse_if (ltb max_result_bytes (len input.result) || ltb max_error_bytes (len input.error))
      result_too_large
  cost ← attempt_cost_columns encode input.cost
  validate_token input.lease_token
  ok (to, cost)

-- A terminal attempt is returned to its owner as it is.
unfoldable pub replay_completion : Env → ℕ → LeaseState → String → Db → Result (Db × Attempt)
replay_completion env id lease token db = do
  refuse_if (is_lost lease.attempt_state || not (str_eq lease.digest (env.digest_token token)))
      (conflict "lease_not_owner")
  attempt ← or_not_found (attempt_of db id)
  ok (db, attempt)

unfoldable pub complete_owned :
    Env
    → ℕ
    → LeaseState
    → AttemptState
    → AttemptCost
    → CompleteAttemptRequest
    → Db
    → Result (Db × Attempt)
complete_owned env id lease to cost input db = do
  verify_active_lease env lease input.lease_token
  c ← resolve lease (reported_outcome lease db id) to input
  complete_active env id lease cost c db

unfoldable pub complete_attempt :
    (Models → String) → Env → ℕ → CompleteAttemptRequest → Db → Result (Db × Attempt)
complete_attempt encode env id input db = do
  (to, cost) ← check_request encode input
  lease ← load_lease db id
  if is_terminal lease.attempt_state
      then replay_completion env id lease input.lease_token db
      else complete_owned env id lease to cost input db
