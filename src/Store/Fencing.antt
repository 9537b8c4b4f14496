-- ===== src/Store/Fencing.antt =====
-- Fencing: what the lease of an attempt lets a Worker do. The calls by which a Worker drives an attempt,
-- as one function: StartAttempt, Heartbeat, StartStage, CompleteStage, CompleteAttempt and AppendEvents. The
-- report of an agent (AppendAgentUpdate), which answers a repeated report without an active lease, is
-- not one of them.
use not_so_simple_software_f.Prelude.{ℕ, ◌<◌, ◌≡◌, true, false, String, some}
use not_so_simple_software_f.Service.{Result, ok, ◌>>=◌}
use not_so_simple_software_f.Store.States.{is_active}
use not_so_simple_software_f.Store.Rows.{Attempt, Db, Env}
use not_so_simple_software_f.Store.Cost.{Models}
use not_so_simple_software_f.Store.Lease.{attempt_of}
use not_so_simple_software_f.Store.Start.{StartAttemptRequest, start_attempt}
use not_so_simple_software_f.Store.Heartbeat.{heartbeat}
use not_so_simple_software_f.Store.Stages.{
  StartStageRequest, start_stage, CompleteStageRequest, complete_stage,
}
use not_so_simple_software_f.Store.Complete.Outcome.{CompleteAttemptRequest}
use not_so_simple_software_f.Store.Complete.{complete_attempt, is_lost}
use not_so_simple_software_f.Store.Events.{Json, EventBatchRequest, append_events}

-- A call that starts, keeps, runs or completes an attempt, or adds to its log.
pub data Call : Type 0 where
  starting : StartAttemptRequest → Call
  beating : String → Call
  stage_starting : ℕ → StartStageRequest → Call
  stage_completing : ℕ → CompleteStageRequest → Call
  completing : CompleteAttemptRequest → Call
  appending : EventBatchRequest → Call

abbrev pub token_of : Call → String
token_of (starting input) = input.lease_token
token_of (beating token) = token
token_of (stage_starting position input) = input.lease_token
token_of (stage_completing position input) = input.lease_token
token_of (completing input) = input.lease_token
token_of (appending input) = input.lease_token

abbrev database {ℓ} : {A : Type ℓ} → Result (Db × A) → Result Db
database m = m >>= λ p. ok p.0

-- The database that a call of an attempt leaves, or its error.
unfoldable pub perform : (Models → String) → Json → Env → ℕ → Call → Db → Result Db
perform encode json env id (starting input) db = database (start_attempt env id input db)
perform encode json env id (beating token) db = database (heartbeat env id token db)
perform encode json env id (stage_starting position input) db =
    database (start_stage env id position input db)
perform encode json env id (stage_completing position input) db =
    database (complete_stage encode env id position input db)
perform encode json env id (completing input) db =
    database (complete_attempt encode env id input db)
perform encode json env id (appending input) db = append_events json env id input db

-- The attempt is active, the token is the one that its lease was given for, and the lease runs.
pub record Fenced (env : Env) (db : Db) (id : ℕ) (token : String) : Type 0 where
  pub attempt : Attempt
  pub has_attempt : attempt_of db id ≡ some attempt
  pub active : is_active attempt.state ≡ true
  pub owner : attempt.lease_digest ≡ env.digest_token token
  pub unexpired : env.now < attempt.lease_expires_at

-- A completion of an attempt that has already ended, and is not lost: nothing changes.
pub record Repeated (db : Db) (id : ℕ) (after : Db) : Type 0 where
  pub attempt : Attempt
  pub has_attempt : attempt_of db id ≡ some attempt
  pub ended : is_active attempt.state ≡ false
  pub not_lost : is_lost attempt.state ≡ false
  pub same : after ≡ db
