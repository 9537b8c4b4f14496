-- ===== src/Store/Complete/Laws.antt =====
-- What a CompleteAttempt that succeeded did: it replayed a terminal attempt, or it completed an
-- active one. Both keep the lockstep.
use not_so_simple_software_f.Prelude.{
  ℕ, ◌≡◌, refl, sym, ap, subst, true, false, not, ◌&&◌, ◌||◌, ◌⊎◌, inl, inr, List, Option, some,
  String, arith, str_eq, eq_iff, if-cases, len, ltb, ◌∙◌,
}
use not_so_simple_software_f.Service.{ok}
use not_so_simple_software_f.Service.Laws.{
  >>=-eq-ok, >>-eq-ok, refuse_if-eq-ok, or_not_found-eq-ok, or_refuse-eq-ok, ok-injective,
}
use not_so_simple_software_f.Store.States.{AttemptState, is_active, is_terminal, is_running}
use not_so_simple_software_f.Store.Rows.{Attempt, AttemptCost, StageRun, WorkUpdate, Db, Env}
use not_so_simple_software_f.Store.Cost.{Models, attempt_cost_columns}
use not_so_simple_software_f.Store.Lease.{
  LeaseState, load_lease, verify_active_lease, validate_token, update_run_lifecycle, attempt_of,
}
use not_so_simple_software_f.Store.Lease.Laws.{
  Holds, Loaded, Loaded-keys, verify_active_lease-Holds, load_lease-Loaded,
}
use not_so_simple_software_f.Store.Lockstep.{Lockstep}
use not_so_simple_software_f.Store.Lockstep.Keep.{Lockstep-keep}
use not_so_simple_software_f.Store.Lockstep.Lease.{Loaded-Held}
use not_so_simple_software_f.Store.Complete.Outcome.{
  CompleteAttemptRequest, Completion, completed_attempt_state, is_success, resolve,
  reported_outcome,
}
use not_so_simple_software_f.Store.Complete.Sessions.{finish_session_rows, id-finished}
use not_so_simple_software_f.Store.Complete.{
  check_request, complete_attempt, complete_owned, complete_active, replay_completion, completed_db,
  finish_rows, is_incomplete, is_lost, max_result_bytes, max_error_bytes,
}

-- A completion that was resolved ends the attempt.
pub resolve-ends :
    (lease : LeaseState) (outcome : Option WorkUpdate) (text : String) (to : AttemptState)
    (input : CompleteAttemptRequest) (c : Completion)
    → completed_attempt_state text ≡ some to
    → resolve lease outcome to input ≡ ok c
    → (is_terminal c.state ≡ true) × (is_lost c.state ≡ false)
unfolding resolve
resolve-ends lease outcome text to input c named h = ground arith

-- The parts of an active attempt's completion.
pub record Completed (env : Env) (id : ℕ) (cost : AttemptCost) (input : CompleteAttemptRequest)
    (to : AttemptState) (db : Db) (out : Db × Attempt) : Type 0 where
  pub lease : LeaseState
  pub completion : Completion
  pub read : load_lease db id ≡ ok lease
  pub loaded : Loaded db id lease
  pub holds : Holds env lease input.lease_token
  pub resolved : resolve lease (reported_outcome lease db id) to input ≡ ok completion
  pub was_running : is_success completion.state ≡ true → is_running lease.attempt_state ≡ true
  pub complete : is_incomplete env lease completion db.stages ≡ false
  pub after : out.0 ≡ completed_db env id lease cost completion db
  pub result : attempt_of out.0 id ≡ some out.1

complete_owned-Completed :
    (env : Env) (id : ℕ) (lease : LeaseState) (to : AttemptState) (cost : AttemptCost)
    (input : CompleteAttemptRequest) (db : Db) (out : Db × Attempt)
    → load_lease db id ≡ ok lease
    → complete_owned env id lease to cost input db ≡ ok out
    → Completed env id cost input to db out
unfolding complete_owned complete_active
complete_owned-Completed env id lease to cost input db out hl h =
    let (hv, h1) = >>-eq-ok (verify_active_lease env lease input.lease_token) _ h in
    let (c, hc, h2) = >>=-eq-ok (resolve lease (reported_outcome lease db id) to input) _ h1 in
    let (hr, h3) =
      refuse_if-eq-ok (is_success c.state && not (is_running lease.attempt_state)) _ _ h2 in
    let (hi, h4) = refuse_if-eq-ok (is_incomplete env lease c db.stages) _ _ h3 in
    let (attempt, ha, h5) =
      or_not_found-eq-ok (attempt_of (completed_db env id lease cost c db) id) _ h4 in
    record {
      lease = lease;
      completion = c;
      read = hl;
      loaded = load_lease-Loaded db id lease hl;
      holds = verify_active_lease-Holds env lease input.lease_token hv;
      resolved = hc;
      was_running = λ s. ground (arith, hr);
      complete = hi;
      after = sym (ap (λ p. p.0) (ok-injective h5));
      result = subst (λ p. attempt_of p.0 id ≡ some p.1) (ok-injective h5) ha;
    }

-- The parts of a replay: nothing changes.
pub record Replayed (env : Env) (id : ℕ) (token : String) (db : Db) (out : Db × Attempt)
    : Type 0 where
  pub lease : LeaseState
  pub read : load_lease db id ≡ ok lease
  pub loaded : Loaded db id lease
  pub terminal : is_terminal lease.attempt_state ≡ true
  pub not_lost : is_lost lease.attempt_state ≡ false
  pub owner : lease.digest ≡ env.digest_token token
  pub same : out.0 ≡ db
  pub result : attempt_of db id ≡ some out.1

replay_completion-Replayed :
    (env : Env) (id : ℕ) (lease : LeaseState) (token : String) (db : Db) (out : Db × Attempt)
    → load_lease db id ≡ ok lease
    → is_terminal lease.attempt_state ≡ true
    → replay_completion env id lease token db ≡ ok out
    → Replayed env id token db out
unfolding replay_completion
replay_completion-Replayed env id lease token db out hl terminal h =
    let refused =
      is_lost lease.attempt_state || not (str_eq lease.digest (env.digest_token token)) in
    let (hr, h1) = refuse_if-eq-ok refused _ _ h in
    let (attempt, ha, h2) = or_not_found-eq-ok (attempt_of db id) _ h1 in
    record {
      lease = lease;
      read = hl;
      loaded = load_lease-Loaded db id lease hl;
      terminal = terminal;
      not_lost = ground (arith, hr);
      owner = ground (arith, hr, eq_iff lease.digest (env.digest_token token));
      same = sym (ap (λ p. p.0) (ok-injective h2));
      result = ha ∙ ap (λ p. some p.1) (ok-injective h2);
    }

pub check_request-named :
    (encode : Models → String) (input : CompleteAttemptRequest)
    (checked : AttemptState × AttemptCost)
    → check_request encode input ≡ ok checked
    → completed_attempt_state input.state ≡ some checked.0
unfolding check_request
check_request-named encode input checked h =
    let oversize =
      ltb max_result_bytes (len input.result) || ltb max_error_bytes (len input.error) in
    let (to, ht, h1) = or_refuse-eq-ok (completed_attempt_state input.state) _ _ h in
    let (_, h2) = refuse_if-eq-ok oversize _ _ h1 in
    let (cost, _, h3) = >>=-eq-ok (attempt_cost_columns encode input.cost) _ h2 in
    let (_, h4) = >>-eq-ok (validate_token input.lease_token) _ h3 in
    ht ∙ ap (λ p. some p.0) (ok-injective h4)

pub complete_attempt-cases :
    (encode : Models → String) (env : Env) (id : ℕ) (input : CompleteAttemptRequest) (db : Db)
    (out : Db × Attempt)
    → complete_attempt encode env id input db ≡ ok out
    → (checked : AttemptState × AttemptCost) × (check_request encode input ≡ ok checked)
      × (Replayed env id input.lease_token db out
          ⊎ Completed env id checked.1 input checked.0 db out)
unfolding complete_attempt
complete_attempt-cases encode env id input db out h =
    let (checked, hc, h1) = >>=-eq-ok (check_request encode input) _ h in
    let (lease, hl, h2) = >>=-eq-ok (load_lease db id) _ h1 in
    (
      checked,
      hc,
      elim (if-cases (is_terminal lease.attempt_state) _ _ h2) [
        | inl (terminal, h3) ↦
            inl (replay_completion-Replayed env id lease input.lease_token db out hl terminal h3)
        | inr (_, h3) ↦
            inr (complete_owned-Completed env id lease checked.0 checked.1 input db out hl h3)
      ],
    )

-- The updates that end an attempt leave every key alone, and leave the attempt not active.
finish_rows-Lockstep :
    (env : Env) (id : ℕ) (lease : LeaseState) (cost : AttemptCost) (c : Completion) (db : Db)
    (stages : List StageRun)
    → Lockstep db
    → Loaded db id lease
    → is_active lease.attempt_state ≡ true
    → is_terminal c.state ≡ true
    → Lockstep (finish_rows env id lease cost c (record db { stages = stages }))
unfolding finish_rows finish_session_rows
finish_rows-Lockstep env id lease cost c db stages lock loaded active ends =
    Lockstep-keep db.attempts db.executions db.sessions id lease.execution_id lease.session_id _ _ _
      _ _ _ lock (Loaded-Held db id lease lock loaded active)
      (record {
        attempt_key = λ a. refl;
        attempt_ref = λ a. refl;
        attempt_only = λ a h. ground arith;
        execution_key = λ e. refl;
        execution_ref = λ e. refl;
        execution_only = λ e h. ground arith;
        session_key = λ s. id-finished env c c.outcome s;
        session_only = λ s h. ground arith;
      })
      (λ still. absurd (ground (arith, loaded.attempt_state, Loaded-keys db id lease loaded)))

-- A completion keeps every active attempt in step with its execution and its session.
pub complete_attempt-Lockstep :
    (encode : Models → String) (env : Env) (id : ℕ) (input : CompleteAttemptRequest) (db : Db)
    (out : Db × Attempt)
    → Lockstep db
    → complete_attempt encode env id input db ≡ ok out
    → Lockstep out.0
unfolding completed_db update_run_lifecycle
complete_attempt-Lockstep encode env id input db out lock h =
    let (checked, hc, cases) = complete_attempt-cases encode env id input db out h in
    let named = check_request-named encode input checked hc in
    elim cases [
      | inl replayed ↦ subst Lockstep (sym replayed.same) lock
      | inr done ↦ subst Lockstep (sym done.after) (
          finish_rows-Lockstep env id done.lease checked.1 done.completion db _ lock done.loaded
            done.holds.active
            (resolve-ends done.lease _ input.state checked.0 input done.completion named
              done.resolved).0)
    ]
