-- ===== src/Store/Complete/Replay.antt =====
-- Completing an attempt twice, and what a successful completion guarantees of its stages.
use not_so_simple_software_f.Prelude.{
  ℕ, ◌==◌, ◌≡◌, refl, sym, ap, subst, ◌∙◌, true, false, ◌&&◌, inl, inr, some, String, arith, eq_iff,
}
use not_so_simple_software_f.Service.{ok}
use not_so_simple_software_f.Table.Laws.{find_row-update_same, updated}
use not_so_simple_software_f.Store.States.{AttemptState, is_active, is_terminal}
use not_so_simple_software_f.Store.Rows.{Attempt, Execution, Session, AttemptCost, Db, Env}
use not_so_simple_software_f.Store.Cost.{Models}
use not_so_simple_software_f.Store.Lease.{
  LeaseState, load_lease, update_run_lifecycle, attempt_of, execution_of, session_of, run_of,
  null_string,
}
use not_so_simple_software_f.Store.Lease.Laws.{Loaded, Loaded-keys, load_lease-reads}
use not_so_simple_software_f.Store.Complete.Outcome.{CompleteAttemptRequest, Completion}
use not_so_simple_software_f.Store.Complete.{
  check_request, complete_attempt, replay_completion, completed_db, finish_rows, is_lost,
  execution_state_of,
}
use not_so_simple_software_f.Store.Complete.Sessions.{
  may_finish, finished, finish_session_rows, id-finished, run_id-finished,
}
use not_so_simple_software_f.Store.States.Execution
use not_so_simple_software_f.Store.Complete.Laws.{
  complete_attempt-cases, check_request-named, resolve-ends,
}

-- The attempt that a completion wrote.
pub attempt-completed_db :
    (env : Env) (id : ℕ) (lease : LeaseState) (cost : AttemptCost) (c : Completion) (db : Db)
    (l : Loaded db id lease)
    → is_active lease.attempt_state ≡ true
    → attempt_of (completed_db env id lease cost c db) id
      ≡ some (record (l.attempt) {
        state = c.state;
        result = null_string c.result;
        error = null_string c.error;
        completed_at = some env.now;
        cost = cost;
      })
unfolding completed_db finish_rows update_run_lifecycle
attempt-completed_db env id lease cost c db l active =
    find_row-update_same (λ a. a.id) id _ _ db.attempts l.attempt (λ a. refl) l.has_attempt
    ∙ ground (arith, (Loaded-keys db id lease l).0, l.attempt_state)

-- A terminal attempt that is not lost is returned to the holder of its token, whatever is sent.
pub complete_attempt-replays :
    (encode : Models → String) (env : Env) (id : ℕ) (input : CompleteAttemptRequest) (db : Db)
    (checked : AttemptState × AttemptCost) (lease : LeaseState) (a : Attempt)
    → check_request encode input ≡ ok checked
    → load_lease db id ≡ ok lease
    → is_terminal lease.attempt_state ≡ true
    → is_lost lease.attempt_state ≡ false
    → lease.digest ≡ env.digest_token input.lease_token
    → attempt_of db id ≡ some a
    → complete_attempt encode env id input db ≡ ok (db, a)
unfolding complete_attempt replay_completion
complete_attempt-replays encode env id input db checked lease a hc hl terminal not_lost owner ha =
    rw (
      hc,
      hl,
      terminal,
      not_lost,
      (eq_iff lease.digest (env.digest_token input.lease_token)).1 owner,
      ha,
    )

-- The lease of an attempt that was completed.
load_lease-completed_db :
    (env : Env) (id : ℕ) (lease : LeaseState) (cost : AttemptCost) (c : Completion) (db : Db)
    (l : Loaded db id lease)
    → is_active lease.attempt_state ≡ true
    → (after : LeaseState) × (load_lease (completed_db env id lease cost c db) id ≡ ok after)
      × (after.attempt_state ≡ c.state)
      × (after.digest ≡ lease.digest)
unfolding completed_db finish_rows finish_session_rows update_run_lifecycle
load_lease-completed_db env id lease cost c db l active =
    let ended = record (l.attempt) {
      state = c.state;
      result = null_string c.result;
      error = null_string c.error;
      completed_at = some env.now;
      cost = cost;
    } in
    let he =
      find_row-update_same (λ e. e.id) lease.execution_id
        (λ e. e.id == lease.execution_id && Execution.is_active e.state)
        (λ e. record e { state = execution_state_of c.state; updated_at = env.now }) db.executions
        l.execution (λ e. refl) l.has_execution in
    let hs =
      find_row-update_same (λ s. s.id) lease.session_id
        (λ s. s.id == lease.session_id && may_finish c c.outcome s.state) (finished env c c.outcome)
        db.sessions l.session (λ s. id-finished env c c.outcome s) l.has_session in
    let after = completed_db env id lease cost c db in
    let same_session : (updated
          (λ (e : Execution). e.id == lease.execution_id && Execution.is_active e.state)
          (λ (e : Execution). record e { state = execution_state_of c.state; updated_at = env.now })
          l.execution).session_id
        ≡ lease.session_id =
      ground (arith, l.session_id) in
    let same_run : (updated
          (λ (s : Session). s.id == lease.session_id && may_finish c c.outcome s.state)
          (finished env c c.outcome) l.session).run_id
        ≡ lease.run_id =
      ground (arith, l.run_id, run_id-finished env c c.outcome l.session) in
    let hr =
      find_row-update_same (λ r. r.id) lease.run_id _ _ db.runs l.run (λ r. refl) l.has_run in
    let (found, read, state, digest) =
      load_lease-reads after id ended _ _ _ (attempt-completed_db env id lease cost c db l active)
        (ap (execution_of after) (sym l.execution_id) ∙ he)
        (ap (session_of after) same_session ∙ hs) (ap (run_of after) same_run ∙ hr) in
    (found, read, state, digest ∙ sym l.digest)

-- Completing is idempotent: when a completion succeeded, sending it again at any later time returns
-- the same attempt and changes nothing.
pub complete_attempt-idempotent :
    (encode : Models → String) (env : Env) (later id : ℕ) (input : CompleteAttemptRequest) (db : Db)
    (out : Db × Attempt)
    → complete_attempt encode env id input db ≡ ok out
    → complete_attempt encode (record env { now = later }) id input out.0 ≡ ok out
complete_attempt-idempotent encode env later id input db out h =
    let (checked, hc, cases) = complete_attempt-cases encode env id input db out h in
    let named = check_request-named encode input checked hc in
    let env' = record env { now = later } in
    elim cases [
      | inl r ↦
          subst (λ d. complete_attempt encode env' id input d ≡ ok (d, out.1)) (sym r.same)
            (complete_attempt-replays encode env' id input db checked r.lease out.1 hc r.read
              r.terminal r.not_lost r.owner r.result)
      | inr s ↦
          let final =
            resolve-ends s.lease _ input.state checked.0 input s.completion named s.resolved in
          let (lease, read, state, digest) =
            load_lease-completed_db env id s.lease checked.1 s.completion db s.loaded
              s.holds.active in
          complete_attempt-replays encode env' id input out.0 checked lease out.1 hc
            (ap (λ d. load_lease d id) s.after ∙ read) (ap is_terminal state ∙ final.0)
            (ap is_lost state ∙ final.1) (digest ∙ s.holds.owner) s.result
    ]
