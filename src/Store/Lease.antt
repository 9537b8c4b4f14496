-- ===== src/Store/Lease.antt =====
-- Leases (factory/internal/controlplane/state.go: loadLease, verifyActiveLease; store.go:
-- validateToken; task_claim.go: updateRunLifecycle), and the rows that a transaction reads by key.
pub mod Laws
use not_so_simple_software_f.Prelude.{
  ℕ, Bool, true, false, not, ◌||◌, ◌&&◌, String, len, Option, none, some, ltb, leb, ◌==◌, str_eq,
  if◌then◌else◌,
}
use not_so_simple_software_f.Table.{find_row, update_where, exists_where}
use not_so_simple_software_f.Service.{
  Result, ok, conflict, invalid, or_not_found, refuse_if, ◌>>=◌, ◌>>◌,
}
use not_so_simple_software_f.Store.States.{AttemptState, ExecutionState, OutcomeContract, is_active}
use not_so_simple_software_f.Store.States.Session
use not_so_simple_software_f.Store.Rows.{Attempt, Execution, Session, Run, Db, Env}

abbrev pub attempt_of : Db → ℕ → Option Attempt
attempt_of db id = find_row (λ a. a.id == id) db.attempts

abbrev pub execution_of : Db → ℕ → Option Execution
execution_of db id = find_row (λ e. e.id == id) db.executions

abbrev pub session_of : Db → ℕ → Option Session
session_of db id = find_row (λ s. s.id == id) db.sessions

abbrev pub run_of : Db → ℕ → Option Run
run_of db id = find_row (λ r. r.id == id) db.runs

-- protocol.LeaseDuration, in milliseconds.
abbrev pub lease_duration : ℕ
lease_duration = 30000

-- leaseState, with the session's id, which later statements read by
-- `SELECT session_id FROM executions WHERE id = ?`: no statement writes that column.
pub record LeaseState : Type 0 where
  pub attempt_state : AttemptState
  pub execution_id : ℕ
  pub execution_state : ExecutionState
  pub session_id : ℕ
  pub run_id : ℕ
  pub outcome_contract : OutcomeContract
  pub digest : String
  pub expiry : ℕ
  pub cancel : Bool

-- The join of an attempt with its execution, session and run: any row missing is ErrNotFound.
unfoldable pub load_lease : Db → ℕ → Result LeaseState
load_lease db attempt_id = do
  a ← or_not_found (attempt_of db attempt_id)
  e ← or_not_found (execution_of db a.execution_id)
  s ← or_not_found (session_of db e.session_id)
  run ← or_not_found (run_of db s.run_id)
  ok (record {
    attempt_state = a.state;
    execution_id = a.execution_id;
    execution_state = e.state;
    session_id = e.session_id;
    run_id = s.run_id;
    outcome_contract = run.outcome_contract;
    digest = a.lease_digest;
    expiry = a.lease_expires_at;
    cancel = e.cancellation_requested;
  })

unfoldable pub validate_token : String → Result (Unit {0})
validate_token token =
    refuse_if (ltb (len token) 32 || ltb 1024 (len token)) (invalid "invalid_lease_token")

unfoldable pub verify_active_lease : Env → LeaseState → String → Result (Unit {0})
verify_active_lease env lease token = do
  validate_token token
  refuse_if
      (not (str_eq lease.digest (env.digest_token token))
        || not (is_active lease.attempt_state)
        || leb lease.expiry env.now)
      (conflict "lease_not_owner")

-- updateRunLifecycle: a run is terminal from the moment when none of its sessions is open.
unfoldable pub update_run_lifecycle : Env → LeaseState → Db → Db
update_run_lifecycle env lease db = record db {
  runs =
      update_where (λ r. r.id == lease.run_id)
        (λ r. record r {
          updated_at = env.now;
          terminal_at =
              if exists_where (λ s. s.run_id == r.id && Session.is_open s.state) db.sessions
              then none
              else some env.now;
        })
        db.runs;
}

-- nullString: the empty text is stored as NULL.
abbrev pub null_string : String → Option String
null_string value = if str_eq value "" then none else some value

-- COALESCE(column, value)
abbrev pub coalesce {ℓ} : {A : Type ℓ} → Option A → A → Option A
coalesce none a = some a
coalesce (some b) a = some b
