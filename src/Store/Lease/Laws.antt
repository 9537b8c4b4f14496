-- ===== src/Store/Lease/Laws.antt =====
-- When a lease check passes.
use not_so_simple_software_f.Prelude.{ℕ, ◌==◌, ◌<◌, ◌≡◌, refl, String, true, some, arith, eq_iff}
use not_so_simple_software_f.Table.Laws.{find_row_test}
use not_so_simple_software_f.Service.{ok}
use not_so_simple_software_f.Service.Laws.{or_not_found-eq-ok}
use not_so_simple_software_f.Store.States.{is_active}
use not_so_simple_software_f.Store.Rows.{Attempt, Execution, Session, Run, Db, Env}
use not_so_simple_software_f.Store.Lease.{
  LeaseState, load_lease, verify_active_lease, validate_token, attempt_of, execution_of, session_of,
  run_of,
}

-- What a check that passed says of the lease.
pub record Holds (env : Env) (lease : LeaseState) (token : String) : Type 0 where
  pub owner : lease.digest ≡ env.digest_token token
  pub active : is_active lease.attempt_state ≡ true
  pub unexpired : env.now < lease.expiry

pub verify_active_lease-Holds :
    (env : Env) (lease : LeaseState) (token : String) {u : Unit {0}}
    → verify_active_lease env lease token ≡ ok u
    → Holds env lease token
unfolding verify_active_lease validate_token
verify_active_lease-Holds env lease token h =
    ground (arith, eq_iff lease.digest (env.digest_token token))

-- The rows that a loaded lease was read from.
pub record Loaded (db : Db) (id : ℕ) (lease : LeaseState) : Type 0 where
  pub attempt : Attempt
  pub execution : Execution
  pub session : Session
  pub run : Run
  pub has_attempt : attempt_of db id ≡ some attempt
  pub has_execution : execution_of db lease.execution_id ≡ some execution
  pub has_session : session_of db lease.session_id ≡ some session
  pub has_run : run_of db lease.run_id ≡ some run
  pub attempt_state : lease.attempt_state ≡ attempt.state
  pub execution_id : lease.execution_id ≡ attempt.execution_id
  pub session_id : lease.session_id ≡ execution.session_id
  pub run_id : lease.run_id ≡ session.run_id
  pub execution_state : lease.execution_state ≡ execution.state
  pub digest : lease.digest ≡ attempt.lease_digest
  pub expiry : lease.expiry ≡ attempt.lease_expires_at

pub load_lease-Loaded :
    (db : Db) (id : ℕ) (lease : LeaseState) → load_lease db id ≡ ok lease → Loaded db id lease
unfolding load_lease
load_lease-Loaded db id lease h =
    let (a, ha, h1) = or_not_found-eq-ok (attempt_of db id) _ h in
    let (e, he, h2) = or_not_found-eq-ok (execution_of db a.execution_id) _ h1 in
    let (s, hs, h3) = or_not_found-eq-ok (session_of db e.session_id) _ h2 in
    let (r, hr, h4) = or_not_found-eq-ok (run_of db s.run_id) _ h3 in
    record {
      attempt = a;
      execution = e;
      session = s;
      run = r;
      has_attempt = ha;
      has_execution = ground arith;
      has_session = ground arith;
      has_run = ground arith;
      attempt_state = ground arith;
      execution_id = ground arith;
      session_id = ground arith;
      run_id = ground arith;
      execution_state = ground arith;
      digest = ground arith;
      expiry = ground arith;
    }

-- Each loaded row has the key that it was read by.
pub Loaded-keys :
    (db : Db) (id : ℕ) (lease : LeaseState) (l : Loaded db id lease)
    → (l.attempt.id ≡ id)
      × (l.execution.id ≡ lease.execution_id)
      × (l.session.id ≡ lease.session_id)
Loaded-keys db id lease l = (
  ground (arith, find_row_test (λ a. a.id == id) db.attempts l.attempt l.has_attempt),
  ground (
    arith,
    find_row_test (λ e. e.id == lease.execution_id) db.executions l.execution l.has_execution,
  ),
  ground (arith, find_row_test (λ s. s.id == lease.session_id) db.sessions l.session l.has_session),
)

-- A lease can be read where its four rows are.
pub load_lease-reads :
    (db : Db) (id : ℕ) (a : Attempt) (e : Execution) (s : Session) (r : Run)
    → attempt_of db id ≡ some a
    → execution_of db a.execution_id ≡ some e
    → session_of db e.session_id ≡ some s
    → run_of db s.run_id ≡ some r
    → (lease : LeaseState) × (load_lease db id ≡ ok lease)
      × (lease.attempt_state ≡ a.state)
      × (lease.digest ≡ a.lease_digest)
unfolding load_lease
load_lease-reads db id a e s r ha he hs hr = (
  record {
    attempt_state = a.state;
    execution_id = a.execution_id;
    execution_state = e.state;
    session_id = e.session_id;
    run_id = s.run_id;
    outcome_contract = r.outcome_contract;
    digest = a.lease_digest;
    expiry = a.lease_expires_at;
    cancel = e.cancellation_requested;
  },
  rw (ha, he, hs, hr),
  refl,
  refl,
)
