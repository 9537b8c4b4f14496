-- ===== src/Store/States.antt =====
-- The states that the CHECK constraints of factory/migrations admit, and the texts of
-- factory/internal/protocol/tasks.go that name them.
pub mod Execution
pub mod Session
pub mod Stage
use not_so_simple_software_f.Prelude.{Bool, true, false}

-- attempts.state
pub data AttemptState : Type 0 where
  preparing running succeeded failed cancelled lost : AttemptState

-- executions.state
pub data ExecutionState : Type 0 where
  queued preparing running succeeded failed cancelled : ExecutionState

-- sessions.state, a SessionState, which is also a WorkState
pub data SessionState : Type 0 where
  draft blocked queued preparing running needs_input ready succeeded failed no_change cancelled :
      SessionState

-- session_stages.state, a StageRunState
pub data StageRunState : Type 0 where
  pending running succeeded failed cancelled : StageRunState

-- sessions.execution_backend
pub data Backend : Type 0 where
  persistent docker fake_cloud_run : Backend

-- sessions.execution_owner, an ExecutionOwner
pub data ExecutionOwner : Type 0 where
  owner_none worker_attempt operator : ExecutionOwner

pub data OutcomeContract : Type 0 where
  process_exit agent_update : OutcomeContract

-- work_updates.status
pub data WorkUpdateStatus : Type 0 where
  running ready needs_input failed no_change merged : WorkUpdateStatus

pub data ReviewVerdict : Type 0 where
  verdict_none approve request_changes verdict_blocked : ReviewVerdict

-- isActive: the state is 'preparing' or 'running'.
abbrev pub is_active : AttemptState → Bool
is_active AttemptState.preparing = true
is_active AttemptState.running = true
is_active _ = false

-- isTerminal: the state is 'succeeded', 'failed', 'cancelled' or 'lost'.
abbrev pub is_terminal : AttemptState → Bool
is_terminal AttemptState.succeeded = true
is_terminal AttemptState.failed = true
is_terminal AttemptState.cancelled = true
is_terminal AttemptState.lost = true
is_terminal _ = false

abbrev pub is_running : AttemptState → Bool
is_running AttemptState.running = true
is_running _ = false

abbrev pub is_preparing : AttemptState → Bool
is_preparing AttemptState.preparing = true
is_preparing _ = false

-- WorkerDispatched: a Worker leases and executes the backend's attempts.
abbrev pub worker_dispatched : Backend → Bool
worker_dispatched fake_cloud_run = false
worker_dispatched _ = true
