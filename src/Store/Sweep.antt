-- ===== src/Store/Sweep.antt =====
-- SweepExpired (factory/internal/controlplane/state.go): attempts whose lease ran out are lost.
pub mod Laws
use not_so_simple_software_f.Prelude.{
  ℕ, ◌-◌, Bool, true, false, not, ◌||◌, ◌&&◌, Option, none, some, List, [], ◌∷◌, ltb, leb, ◌==◌,
  if◌then◌else◌,
}
use not_so_simple_software_f.Table.{select, update_where, count_where}
use not_so_simple_software_f.Service.{Result, ok, err}
use not_so_simple_software_f.Store.States.{
  AttemptState, ExecutionState, SessionState, StageRunState, WorkUpdateStatus, owner_none,
  is_active, worker_dispatched,
}
use not_so_simple_software_f.Store.States.Execution
use not_so_simple_software_f.Store.States.Session
use not_so_simple_software_f.Store.States.Stage
use not_so_simple_software_f.Store.Rows.{Attempt, Session, WorkUpdate, ClaimRequest, Db, Env}
use not_so_simple_software_f.Store.Lease.{
  LeaseState, load_lease, attempt_of, execution_of, session_of, update_run_lifecycle,
}
use not_so_simple_software_f.Store.Complete.Outcome.{attempt_outcome}

-- protocol.EmptyClaimTTL, in milliseconds.
abbrev pub empty_claim_ttl : ℕ
empty_claim_ttl = 300000

-- The execution's session runs on a backend that a Worker serves.
abbrev pub is_dispatched : Db → ℕ → Bool
is_dispatched db execution_id = elim (execution_of db execution_id) [
  | none ↦ false
  | some e ↦ elim (session_of db e.session_id) [
    | none ↦ false
    | some s ↦ worker_dispatched s.execution_backend
  ]
]

abbrev pub is_expired : Env → Attempt → Bool
is_expired env a = is_active a.state && leb a.lease_expires_at env.now

-- The condition that the SELECT of expired attempts and the UPDATE of each of them share.
abbrev pub is_swept : Env → Db → Attempt → Bool
is_swept env db a = is_expired env a && is_dispatched db a.execution_id

abbrev is_null : Option ℕ → Bool
is_null none = true
is_null (some id) = false

unfoldable pub delete_empty_claims : Env → Db → Db
delete_empty_claims env db = record db {
  claims =
      select (λ c. not (is_null c.attempt_id && ltb c.created_at (env.now - empty_claim_ttl)))
        db.claims;
}

-- The evidence of an outcome that the lost attempt had already reported.
keep_evidence : WorkUpdate → WorkUpdateStatus → Session → Session
keep_evidence u WorkUpdateStatus.needs_input s = record s {
  checkpoint_sha = u.checkpoint_sha;
  pending_resume_sha = u.checkpoint_sha;
  checkpoint_published = u.checkpoint_published;
}
keep_evidence u WorkUpdateStatus.ready s = record s {
  pull_request_url = u.pull_request_url;
  pull_request_head_branch = u.pull_request_head_branch;
  pull_request_head_sha = u.pull_request_head_sha;
}
keep_evidence u _ s = s

with_evidence : Option WorkUpdate → Session → Session
unfolding keep_evidence
with_evidence none s = s
with_evidence (some u) s = keep_evidence u u.status s

unfoldable pub lose_session : Env → Option WorkUpdate → Session → Session
unfolding with_evidence
lose_session env outcome s = record (with_evidence outcome s) {
  state = SessionState.failed;
  terminal_at = some env.now;
  failure_reason = some "lease expired";
  terminal_message = "lease expired";
  execution_owner = owner_none;
}

unfoldable pub lose_attempt : Env → Attempt → Attempt
lose_attempt env a = record a {
  state = AttemptState.lost;
  error = some "lease expired";
  completed_at = some env.now;
}

-- The updates of one attempt's execution, session and stages, once the attempt is lost.
unfoldable pub lose_rows : Env → ℕ → LeaseState → Db → Db
unfolding lose_attempt
lose_rows env id lease db = record db {
  attempts = update_where (λ a. a.id == id && is_swept env db a) (lose_attempt env) db.attempts;
  executions =
      update_where (λ e. e.id == lease.execution_id && Execution.is_active e.state)
        (λ e. record e { state = ExecutionState.failed; updated_at = env.now }) db.executions;
  sessions =
      update_where (λ s. s.id == lease.session_id && Session.is_active s.state)
        (lose_session env (attempt_outcome db id)) db.sessions;
  stages =
      update_where (λ g. g.session_id == lease.session_id && Stage.is_unfinished g.state)
        (λ g. record g {
          state =
              if Stage.is_running g.state then StageRunState.failed else StageRunState.cancelled;
          error = if Stage.is_running g.state then "lease expired" else g.error;
          completed_at = some env.now;
        })
        db.stages;
}

-- The foreign keys give every execution a session and a run, so the lease of an attempt that is there
-- can be read.
unfoldable pub lose_loaded : Env → ℕ → Result LeaseState → Db → Db
lose_loaded env id (ok lease) db = update_run_lifecycle env lease (lose_rows env id lease db)
lose_loaded env id (err e) db = db

abbrev pub row_is_swept : Env → Db → Option Attempt → Bool
row_is_swept env db none = false
row_is_swept env db (some a) = is_swept env db a

-- RowsAffected is 1: the id is a primary key, so the row that it names is still expired.
abbrev pub is_still_expired : Env → Db → ℕ → Bool
is_still_expired env db id = row_is_swept env db (attempt_of db id)

-- One turn of the loop.
unfoldable pub sweep_one : Env → Attempt → Db → Db
sweep_one env value db =
    if is_still_expired env db value.id
    then lose_loaded env value.id (load_lease db value.id) db
    else db

unfoldable pub sweep_all : Env → List Attempt → Db → Db
sweep_all env [] db = db
sweep_all env (value ∷ rest) db = sweep_all env rest (sweep_one env value db)

-- The attempts that the SELECT found, each as it was read, and the database after all of them.
unfoldable pub sweep_expired : Env → Db → Db × List Attempt
sweep_expired env db =
    let fresh = delete_empty_claims env db in
    let values = select (is_swept env fresh) fresh.attempts in (sweep_all env values fresh, values)
