-- ===== src/Store/Start.antt =====
-- StartAttempt (factory/internal/controlplane/state.go) and validCommitSHA (work.go).
pub mod Laws
use Prim.Native.Char.{code}
use not_so_simple_software_f.Prelude.{
  ℕ, Bool, true, false, not, ◌||◌, ◌&&◌, String, len, Option, none, some, leb, ◌==◌, str_eq,
  if◌then◌else◌,
}
use not_so_simple_software_f.Table.{update_where}
use not_so_simple_software_f.Service.{
  Result, ok, err, conflict, invalid, or_not_found, refuse_if, ◌>>=◌, ◌>>◌,
}
use not_so_simple_software_f.Store.States.{
  AttemptState, ExecutionState, SessionState, ExecutionOwner, worker_attempt, is_preparing,
  is_running,
}
use not_so_simple_software_f.Store.States.Execution
use not_so_simple_software_f.Store.States.Session
use not_so_simple_software_f.Store.Rows.{Attempt, Session, Db, Env}
use not_so_simple_software_f.Store.Lease.{
  LeaseState, load_lease, verify_active_lease, attempt_of, session_of, null_string, coalesce,
}

pub record StartAttemptRequest : Type 0 where
  pub lease_token : String
  pub supervisor_pid : Option ℕ
  pub process_identity : String
  pub process_group_id : Option ℕ
  pub started_from_sha : String
  pub runtime_started : Bool

hex_digit : ℕ → Bool
hex_digit c = leb b'0' c && leb c b'9' || leb b'a' c && leb c b'f'

all_hex : String → Bool
unfolding hex_digit
all_hex String.[] = true
all_hex (String.◌∷◌ c s) = hex_digit (code c) && all_hex s

-- A full SHA-1 or SHA-256 name in lower-case hexadecimal.
unfoldable pub valid_commit_sha : String → Bool
unfolding all_hex
valid_commit_sha value = (len value == 40 || len value == 64) && all_hex value

-- The three updates of an attempt that starts.
unfoldable pub start_rows : Env → ℕ → LeaseState → StartAttemptRequest → Db → Db
start_rows env id lease input db = record db {
  attempts =
      update_where (λ a. a.id == id && is_preparing a.state)
        (λ a. record a {
          state = AttemptState.running;
          supervisor_pid = input.supervisor_pid;
          process_identity = null_string input.process_identity;
          process_group_id = input.process_group_id;
          started_at = some env.now;
        })
        db.attempts;
  executions =
      update_where (λ e. e.id == lease.execution_id && Execution.is_preparing e.state)
        (λ e. record e { state = ExecutionState.running; updated_at = env.now }) db.executions;
  sessions =
      update_where (λ s. s.id == lease.session_id && Session.is_preparing s.state)
        (λ s. record s {
          state = SessionState.running;
          started_at = coalesce s.started_at env.now;
          execution_owner = worker_attempt;
        })
        db.sessions;
}

-- `if lease.attemptState == "preparing" ... else if != "running"`.
unfoldable pub start_transition : Env → ℕ → LeaseState → StartAttemptRequest → Db → Result Db
unfolding start_rows
start_transition env id lease input db =
    if is_preparing lease.attempt_state
    then if input.runtime_started
      then err (conflict "invalid_transition")
      else ok (start_rows env id lease input db)
    else if is_running lease.attempt_state
    then ok db
    else err (conflict "invalid_transition")

-- The started runtime has consumed the commit that it resumed from.
unfoldable pub clear_pending_resume : LeaseState → StartAttemptRequest → Db → Db
clear_pending_resume lease input db =
    if input.runtime_started
    then record db {
      sessions =
          update_where (λ s. s.id == lease.session_id && Session.is_running s.state)
            (λ s. record s {
              pending_resume_sha =
                  if str_eq s.pending_resume_sha input.started_from_sha
                  then ""
                  else s.pending_resume_sha;
            })
            db.sessions;
    }
    else db

unfoldable pub start_attempt : Env → ℕ → StartAttemptRequest → Db → Result (Db × Attempt)
unfolding start_transition clear_pending_resume valid_commit_sha
start_attempt env id input db = do
  refuse_if
      (not (str_eq input.started_from_sha "") && not (valid_commit_sha input.started_from_sha))
      (invalid "invalid_started_commit")
  lease ← load_lease db id
  verify_active_lease env lease input.lease_token
  session ← or_not_found (session_of db lease.session_id)
  refuse_if
      (not (str_eq session.pending_resume_sha "")
        && not (str_eq input.started_from_sha session.pending_resume_sha))
      (conflict "resume_commit_mismatch")
  started ← start_transition env id lease input db
  let after = clear_pending_resume lease input started
  attempt ← or_not_found (attempt_of after id)
  ok (after, attempt)
