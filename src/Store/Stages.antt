-- ===== src/Store/Stages.antt =====
-- StartStage and CompleteStage (factory/internal/controlplane/stage_runs.go).
pub mod Laws
pub mod Order
use not_so_simple_software_f.Prelude.{
  ℕ, Bool, true, false, not, ◌||◌, ◌&&◌, String, len, Option, none, some, ltb, ◌==◌, str_eq, ◌<◌,
  if◌then◌else◌,
}
use not_so_simple_software_f.Table.{find_row, update_where, count_where}
use not_so_simple_software_f.Service.{
  Result, ok, err, conflict, invalid, or_not_found, or_refuse, refuse_if, ◌>>=◌, ◌>>◌,
}
use not_so_simple_software_f.Store.States.{
  StageRunState, ReviewVerdict, verdict_none, approve, request_changes, verdict_blocked, is_running,
}
use not_so_simple_software_f.Store.States.Execution
use not_so_simple_software_f.Store.States.Stage
use not_so_simple_software_f.Store.Rows.{StageRun, AttemptCost, Db, Env}
use not_so_simple_software_f.Store.Cost.{Models, ReportedCost, attempt_cost_columns, bound, eq_cost}
use not_so_simple_software_f.Store.Lease.{
  LeaseState, load_lease, verify_active_lease, null_string, coalesce,
}

abbrev pub max_result_bytes : ℕ
max_result_bytes = 262144

abbrev pub max_error_bytes : ℕ
max_error_bytes = 65536

abbrev pub at_stage : ℕ → ℕ → StageRun → Bool
at_stage session_id position g = g.session_id == session_id && g.position == position

abbrev pub stage_of : Db → ℕ → ℕ → Option StageRun
stage_of db session_id position = find_row (at_stage session_id position) db.stages

pub record StartStageRequest : Type 0 where
  pub lease_token : String
  pub supervisor_pid : Option ℕ
  pub process_identity : String
  pub process_group_id : Option ℕ

-- The stage runs, and the attempt takes on its process.
unfoldable pub start_stage_rows : Env → ℕ → LeaseState → ℕ → StartStageRequest → Db → Db
start_stage_rows env id lease position input db = record db {
  stages =
      update_where (at_stage lease.session_id position)
        (λ g. record g {
          state = StageRunState.running;
          started_at = coalesce g.started_at env.now;
        })
        db.stages;
  attempts =
      update_where (λ a. a.id == id)
        (λ a. record a {
          supervisor_pid = input.supervisor_pid;
          process_identity = null_string input.process_identity;
          process_group_id = input.process_group_id;
        })
        db.attempts;
}

-- The number of earlier stages that have not succeeded.
abbrev pub incomplete_before : ℕ → ℕ → Db → ℕ
incomplete_before session_id position db =
    count_where
      (λ g.
        g.session_id == session_id && ltb g.position position && not (Stage.is_succeeded g.state))
      db.stages

unfoldable pub start_stage : Env → ℕ → ℕ → StartStageRequest → Db → Result (Db × StageRun)
unfolding start_stage_rows
start_stage env id position input db = do
  lease ← load_lease db id
  verify_active_lease env lease input.lease_token
  refuse_if
      (not (is_running lease.attempt_state) || not (Execution.is_running lease.execution_state))
      (conflict "attempt_not_running")
  refuse_if lease.cancel (conflict "cancellation_requested")
  stage ← or_not_found (stage_of db lease.session_id position)
  refuse_if (not (Stage.is_unfinished stage.state)) (conflict "stage_not_pending")
  refuse_if (ltb 0 (incomplete_before lease.session_id position db))
      (conflict "stage_predecessor_incomplete")
  let after = start_stage_rows env id lease position input db
  started ← or_not_found (stage_of after lease.session_id position)
  ok (after, started)

pub record CompleteStageRequest : Type 0 where
  pub lease_token : String
  pub state : String
  pub result : String
  pub error : String
  pub review_verdict : String
  pub cost : ReportedCost

abbrev pub completed_stage_state : String → Option StageRunState
completed_stage_state text =
    if str_eq text "succeeded"
    then some StageRunState.succeeded
    else if str_eq text "failed"
    then some StageRunState.failed
    else if str_eq text "cancelled"
    then some StageRunState.cancelled
    else none

-- SupportedReviewVerdict, with the verdict that the text names.
abbrev pub supported_review_verdict : String → Option ReviewVerdict
supported_review_verdict text =
    if str_eq text ""
    then some verdict_none
    else if str_eq text "approve"
    then some approve
    else if str_eq text "request-changes"
    then some request_changes
    else if str_eq text "blocked"
    then some verdict_blocked
    else none

abbrev pub is_verdict : ReviewVerdict → Bool
is_verdict verdict_none = false
is_verdict _ = true

abbrev pub eq_stage_state : StageRunState → StageRunState → Bool
eq_stage_state StageRunState.pending StageRunState.pending = true
eq_stage_state StageRunState.running StageRunState.running = true
eq_stage_state StageRunState.succeeded StageRunState.succeeded = true
eq_stage_state StageRunState.failed StageRunState.failed = true
eq_stage_state StageRunState.cancelled StageRunState.cancelled = true
eq_stage_state _ _ = false

abbrev pub eq_verdict : ReviewVerdict → ReviewVerdict → Bool
eq_verdict verdict_none verdict_none = true
eq_verdict approve approve = true
eq_verdict request_changes request_changes = true
eq_verdict verdict_blocked verdict_blocked = true
eq_verdict _ _ = false

-- The parts of a completion that was found valid.
pub record StageCompletion : Type 0 where
  pub state : StageRunState
  pub result : String
  pub error : String
  pub review_verdict : ReviewVerdict
  pub cost : AttemptCost

-- The checks on the request alone. The first stage implements the work, and records no verdict.
unfoldable pub check_completion :
    (Models → String) → ℕ → CompleteStageRequest → Result StageCompletion
check_completion encode position input = do
  to ← or_refuse (completed_stage_state input.state) (invalid "invalid_stage_state")
  refuse_if (ltb max_result_bytes (len input.result) || ltb max_error_bytes (len input.error))
      (invalid "stage_result_too_large")
  verdict ←
      or_refuse (supported_review_verdict input.review_verdict) (invalid "invalid_review_verdict")
  refuse_if (is_verdict verdict && position == 0) (invalid "invalid_review_verdict")
  cost ← attempt_cost_columns encode input.cost
  ok (record {
    state = to;
    result = input.result;
    error = input.error;
    review_verdict = verdict;
    cost = cost;
  })

-- The completed stage, and the stages after it that a stage which did not succeed cancels.
unfoldable pub complete_stage_rows : Env → LeaseState → ℕ → StageCompletion → Db → Db
complete_stage_rows env lease position c db =
    let completed =
      update_where (λ g. at_stage lease.session_id position g && Stage.is_running g.state)
        (λ g. record g {
          state = c.state;
          result = c.result;
          error = c.error;
          review_verdict = c.review_verdict;
          completed_at = some env.now;
          cost = c.cost;
        })
        db.stages in
    record db {
      stages =
          if Stage.is_succeeded c.state
          then completed
          else update_where
              (λ g.
                g.session_id == lease.session_id
                && ltb position g.position
                && Stage.is_pending g.state)
              (λ g. record g { state = StageRunState.cancelled; completed_at = some env.now })
              completed;
    }

-- An exact repetition of the completion that the stage already stores.
unfoldable pub is_replay : StageCompletion → StageRun → Bool
unfolding bound eq_cost
is_replay c stage =
    eq_stage_state stage.state c.state
    && str_eq stage.result c.result
    && str_eq stage.error c.error
    && eq_verdict stage.review_verdict c.review_verdict
    && eq_cost (bound stage.cost) c.cost

-- The transaction.
unfoldable pub store_completion :
    Env → ℕ → ℕ → String → StageCompletion → Db → Result (Db × StageRun)
store_completion env id position token c db = do
  lease ← load_lease db id
  verify_active_lease env lease token
  refuse_if
      (not (is_running lease.attempt_state) || not (Execution.is_running lease.execution_state))
      (conflict "attempt_not_running")
  stage ← or_not_found (stage_of db lease.session_id position)
  refuse_if (not (Stage.is_running stage.state) && not (is_replay c stage))
      (conflict "stage_not_running")
  let after =
      if Stage.is_running stage.state then complete_stage_rows env lease position c db else db
  completed ← or_not_found (stage_of after lease.session_id position)
  ok (after, completed)

unfoldable pub complete_stage :
    (Models → String) → Env → ℕ → ℕ → CompleteStageRequest → Db → Result (Db × StageRun)
complete_stage encode env id position input db = do
  c ← check_completion encode position input
  store_completion env id position input.lease_token c db
