-- ===== src/Store/Steps.antt =====
-- The control plane's history of attempts: each of seven transactions that succeeds is a step of the
-- database, by any caller, at any time and in any order: StartAttempt, Heartbeat, StartStage, CompleteStage,
-- CompleteAttempt, AppendEvents and SweepExpired. Claims, cancellations, the reports of an agent, retries
-- and the registration of a Worker are no steps. The kinds of move that an attempt can make.
pub mod Touch
pub mod Written
pub mod Swept
pub mod Reachable
use not_so_simple_software_f.Prelude.{ℕ, ◌≡◌, Bool, true, String}
use not_so_simple_software_f.Service.{ok}
use not_so_simple_software_f.Store.States.{AttemptState, is_active, is_terminal}
use not_so_simple_software_f.Store.Rows.{Attempt, StageRun, Db, Env}
use not_so_simple_software_f.Store.Cost.{Models}
use not_so_simple_software_f.Store.Start.{StartAttemptRequest, start_attempt}
use not_so_simple_software_f.Store.Heartbeat.{HeartbeatResponse, heartbeat}
use not_so_simple_software_f.Store.Stages.{
  StartStageRequest, start_stage, CompleteStageRequest, complete_stage,
}
use not_so_simple_software_f.Store.Complete.Outcome.{CompleteAttemptRequest}
use not_so_simple_software_f.Store.Complete.{complete_attempt}
use not_so_simple_software_f.Store.Events.{Json, EventBatchRequest, append_events}
use not_so_simple_software_f.Store.Sweep.{sweep_expired}

-- An attempt stays in its state, starts, or ends.
pub data Moves : AttemptState → AttemptState → Type 0 where
  stays : {s : AttemptState} → Moves s s
  starts : Moves AttemptState.preparing AttemptState.running
  ends : {s t : AttemptState} → is_active s ≡ true → is_terminal t ≡ true → Moves s t

-- One of the seven transactions, where it succeeds.
pub data Step (encode : Models → String) (json : Json) (db : Db) : Db → Type 0 where
  starting :
      (env : Env) (id : ℕ) (input : StartAttemptRequest) (out : Db × Attempt)
      → start_attempt env id input db ≡ ok out
      → Step encode json db out.0
  beating :
      (env : Env) (id : ℕ) (token : String) (out : Db × HeartbeatResponse)
      → heartbeat env id token db ≡ ok out
      → Step encode json db out.0
  stage_starting :
      (env : Env) (id position : ℕ) (input : StartStageRequest) (out : Db × StageRun)
      → start_stage env id position input db ≡ ok out
      → Step encode json db out.0
  stage_completing :
      (env : Env) (id position : ℕ) (input : CompleteStageRequest) (out : Db × StageRun)
      → complete_stage encode env id position input db ≡ ok out
      → Step encode json db out.0
  completing :
      (env : Env) (id : ℕ) (input : CompleteAttemptRequest) (out : Db × Attempt)
      → complete_attempt encode env id input db ≡ ok out
      → Step encode json db out.0
  appending :
      (env : Env) (id : ℕ) (input : EventBatchRequest) (after : Db)
      → append_events json env id input db ≡ ok after
      → Step encode json db after
  sweeping : (env : Env) → Step encode json db (sweep_expired env db).0

-- Any number of steps.
pub data Reach (encode : Models → String) (json : Json) (db : Db) : Db → Type 0 where
  here : Reach encode json db db
  next :
      {mid after : Db}
      → Reach encode json db mid
      → Step encode json mid after
      → Reach encode json db after
