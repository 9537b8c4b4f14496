-- ===== src/Store/Rows.antt =====
-- The rows that the attempt lifecycle reads and writes (the tables of factory/migrations), the
-- database as one value, and what the operations take from outside.
-- Identifiers are opaque texts that are only compared, and are numbers here. A time is a number of
-- milliseconds. NULL is `none`.
use not_so_simple_software_f.Prelude.{ℕ, Bool, String, Option, List, ℤ}
use not_so_simple_software_f.Store.States.{
  AttemptState, ExecutionState, SessionState, StageRunState, Backend, ExecutionOwner,
  OutcomeContract, WorkUpdateStatus, ReviewVerdict,
}

-- attemptCost: the six nullable cost columns.
pub record AttemptCost : Type 0 where
  pub cost_usd : Option ℤ
  pub input_tokens : Option ℤ
  pub cache_creation_input_tokens : Option ℤ
  pub cache_read_input_tokens : Option ℤ
  pub output_tokens : Option ℤ
  pub models : Option String

-- The row without created_at, and without capacity_acknowledged, which RegisterWorker sets.
pub record Attempt : Type 0 where
  pub id : ℕ
  pub execution_id : ℕ
  pub worker_id : ℕ
  pub attempt_number : ℕ
  pub state : AttemptState
  pub lease_digest : String
  pub lease_expires_at : ℕ
  pub supervisor_pid : Option ℕ
  pub process_identity : Option String
  pub process_group_id : Option ℕ
  pub result : Option String
  pub error : Option String
  pub started_at : Option ℕ
  pub completed_at : Option ℕ
  pub cost : AttemptCost

pub record Execution : Type 0 where
  pub id : ℕ
  pub session_id : ℕ
  pub state : ExecutionState
  pub cancellation_requested : Bool
  pub updated_at : ℕ

pub record Session : Type 0 where
  pub id : ℕ
  pub run_id : ℕ
  pub state : SessionState
  pub execution_backend : Backend
  pub execution_owner : ExecutionOwner
  pub started_at : Option ℕ
  pub terminal_at : Option ℕ
  pub result : Option String
  pub failure_reason : Option String
  pub terminal_message : String
  pub question : String
  pub answer : String
  pub answered_by : String
  pub checkpoint_sha : String
  pub pending_resume_sha : String
  pub checkpoint_published : Bool
  pub pull_request_url : String
  pub pull_request_head_branch : String
  pub pull_request_head_sha : String

-- A row of session_stages.
pub record StageRun : Type 0 where
  pub session_id : ℕ
  pub position : ℕ
  pub state : StageRunState
  pub result : String
  pub error : String
  pub review_verdict : ReviewVerdict
  pub started_at : Option ℕ
  pub completed_at : Option ℕ
  pub cost : AttemptCost

pub record Run : Type 0 where
  pub id : ℕ
  pub outcome_contract : OutcomeContract
  pub updated_at : ℕ
  pub terminal_at : Option ℕ

-- A row of attempt_events.
pub record AttemptEvent : Type 0 where
  pub attempt_id : ℕ
  pub sequence : ℕ
  pub kind : String
  pub payload : String
  pub server_time : ℕ

-- A row of work_updates.
pub record WorkUpdate : Type 0 where
  pub attempt_id : Option ℕ
  pub status : WorkUpdateStatus
  pub message : String
  pub pull_request_url : String
  pub pull_request_head_branch : String
  pub pull_request_head_sha : String
  pub checkpoint_sha : String
  pub checkpoint_published : Bool

-- A row of claim_requests; `none` in `attempt_id` is an empty claim.
pub record ClaimRequest : Type 0 where
  pub worker_id : ℕ
  pub request_id : String
  pub lease_digest : String
  pub attempt_id : Option ℕ
  pub created_at : ℕ

pub record Db : Type 0 where
  pub attempts : List Attempt
  pub executions : List Execution
  pub sessions : List Session
  pub stages : List StageRun
  pub runs : List Run
  pub events : List AttemptEvent
  pub updates : List WorkUpdate
  pub claims : List ClaimRequest

-- What an operation takes from outside: the clock (s.now(), in milliseconds) and SHA-256.
pub record Env : Type 0 where
  pub now : ℕ
  pub digest_token : String → String
