-- ===== src/Store/Stages/Laws.antt =====
-- What StartStage and CompleteStage did where they succeeded, and that they keep the lockstep.
use not_so_simple_software_f.Prelude.{
  ℕ, ◌≤◌, ◌==◌, ◌≡◌, ◌≢◌, refl, sym, ◌∙◌, ◌&&◌, ap, subst, some, String, arith, len, true, false,
  not, ◌||◌, ltb, if◌then◌else◌,
}
use not_so_simple_software_f.Service.{ok}
use not_so_simple_software_f.Service.Laws.{
  >>=-eq-ok, >>-eq-ok, refuse_if-eq-ok, or_not_found-eq-ok, or_refuse-eq-ok, ok-injective,
}
use not_so_simple_software_f.Store.States.{is_running}
use not_so_simple_software_f.Store.States.Execution
use not_so_simple_software_f.Store.States.Stage
use not_so_simple_software_f.Store.Rows.{StageRun, Db, Env}
use not_so_simple_software_f.Store.Lease.{LeaseState, load_lease, verify_active_lease}
use not_so_simple_software_f.Store.Lease.Laws.{
  Holds, Loaded, verify_active_lease-Holds, load_lease-Loaded,
}
use not_so_simple_software_f.Store.Cost.{Models, attempt_cost_columns}
use not_so_simple_software_f.Store.Lockstep.{Lockstep}
use not_so_simple_software_f.Store.Lockstep.Same.{Lockstep-attempts, Lockstep-if}
use not_so_simple_software_f.Store.Stages.{
  StartStageRequest, start_stage, start_stage_rows, stage_of, incomplete_before,
  CompleteStageRequest, StageCompletion, check_completion, store_completion, complete_stage,
  max_result_bytes, max_error_bytes, complete_stage_rows, completed_stage_state,
  supported_review_verdict, is_replay, is_verdict,
}

-- The parts of a stage start that succeeded.
pub record StageStarted (env : Env) (id position : ℕ) (input : StartStageRequest) (db : Db)
    (out : Db × StageRun) : Type 0 where
  pub lease : LeaseState
  pub stage : StageRun
  pub read : load_lease db id ≡ ok lease
  pub loaded : Loaded db id lease
  pub holds : Holds env lease input.lease_token
  pub attempt_running : is_running lease.attempt_state ≡ true
  pub not_cancelled : lease.cancel ≡ false
  pub found : stage_of db lease.session_id position ≡ some stage
  pub unfinished : Stage.is_unfinished stage.state ≡ true
  pub predecessors : incomplete_before lease.session_id position db ≡ 0
  pub after : out.0 ≡ start_stage_rows env id lease position input db
  pub result : stage_of out.0 lease.session_id position ≡ some out.1

pub start_stage-StageStarted :
    (env : Env) (id position : ℕ) (input : StartStageRequest) (db : Db) (out : Db × StageRun)
    → start_stage env id position input db ≡ ok out
    → StageStarted env id position input db out
unfolding start_stage
start_stage-StageStarted env id position input db out h =
    let (lease, hl, h1) = >>=-eq-ok (load_lease db id) _ h in
    let (hv, h2) = >>-eq-ok (verify_active_lease env lease input.lease_token) _ h1 in
    let (hr, h3) =
      refuse_if-eq-ok
        (not (is_running lease.attempt_state) || not (Execution.is_running lease.execution_state)) _
        _ h2 in
    let (hc, h4) = refuse_if-eq-ok lease.cancel _ _ h3 in
    let (stage, hs, h5) = or_not_found-eq-ok (stage_of db lease.session_id position) _ h4 in
    let (hu, h6) = refuse_if-eq-ok (not (Stage.is_unfinished stage.state)) _ _ h5 in
    let (hp, h7) =
      refuse_if-eq-ok (ltb 0 (incomplete_before lease.session_id position db)) _ _ h6 in
    let (started, ht, h8) =
      or_not_found-eq-ok
        (stage_of (start_stage_rows env id lease position input db) lease.session_id position) _
        h7 in
    record {
      lease = lease;
      stage = stage;
      read = hl;
      loaded = load_lease-Loaded db id lease hl;
      holds = verify_active_lease-Holds env lease input.lease_token hv;
      attempt_running = ground (arith, hr);
      not_cancelled = hc;
      found = hs;
      unfinished = ground (arith, hu);
      predecessors = ground (arith, hp);
      after = sym (ap (λ p. p.0) (ok-injective h8));
      result = subst (λ p. stage_of p.0 lease.session_id position ≡ some p.1) (ok-injective h8) ht;
    }

-- Starting a stage moves no state of an attempt.
pub start_stage-Lockstep :
    (env : Env) (id position : ℕ) (input : StartStageRequest) (db : Db) (out : Db × StageRun)
    → Lockstep db
    → start_stage env id position input db ≡ ok out
    → Lockstep out.0
unfolding start_stage_rows
start_stage-Lockstep env id position input db out lock h =
    subst Lockstep (sym (start_stage-StageStarted env id position input db out h).after)
      (Lockstep-attempts _ _ (λ a. refl) (λ a. refl) (λ a. refl) lock)

-- What the checks on the request say of a completion that passed them.
pub record IsChecked (position : ℕ) (input : CompleteStageRequest) (c : StageCompletion)
    : Type 0 where
  pub requested : completed_stage_state input.state ≡ some c.state
  pub supported : supported_review_verdict input.review_verdict ≡ some c.review_verdict
  pub not_first : is_verdict c.review_verdict ≡ true → position ≢ 0
  pub result_fits : len c.result ≤ max_result_bytes
  pub error_fits : len c.error ≤ max_error_bytes

pub check_completion-IsChecked :
    (encode : Models → String) (position : ℕ) (input : CompleteStageRequest) (c : StageCompletion)
    → check_completion encode position input ≡ ok c
    → IsChecked position input c
unfolding check_completion
check_completion-IsChecked encode position input c h =
    let oversize =
      ltb max_result_bytes (len input.result) || ltb max_error_bytes (len input.error) in
    let (to, ht, h1) = or_refuse-eq-ok (completed_stage_state input.state) _ _ h in
    let (hz, h2) = refuse_if-eq-ok oversize _ _ h1 in
    let (verdict, hw, h3) =
      or_refuse-eq-ok (supported_review_verdict input.review_verdict) _ _ h2 in
    let (hf, h4) = refuse_if-eq-ok (is_verdict verdict && position == 0) _ _ h3 in
    let (cost, hc, h5) = >>=-eq-ok (attempt_cost_columns encode input.cost) _ h4 in
    let e = ok-injective h5 in
    record {
      requested = ht ∙ ap (λ x. some x.state) e;
      supported = hw ∙ ap (λ x. some x.review_verdict) e;
      not_first = λ v z. ground (arith, ap (λ (x : StageCompletion). x.review_verdict) e, hf);
      result_fits = subst (λ x. len x.result ≤ max_result_bytes) e (ground (arith, hz));
      error_fits = subst (λ x. len x.error ≤ max_error_bytes) e (ground (arith, hz));
    }

-- The parts of a stored completion: it was written, or it repeats what is stored.
pub record StageCompleted (env : Env) (id position : ℕ) (token : String) (c : StageCompletion)
    (db : Db) (out : Db × StageRun) : Type 0 where
  pub lease : LeaseState
  pub stage : StageRun
  pub read : load_lease db id ≡ ok lease
  pub loaded : Loaded db id lease
  pub holds : Holds env lease token
  pub attempt_running : is_running lease.attempt_state ≡ true
  pub found : stage_of db lease.session_id position ≡ some stage
  pub after :
      out.0
      ≡ (if Stage.is_running stage.state then complete_stage_rows env lease position c db else db)
  pub replayed : Stage.is_running stage.state ≡ false → is_replay c stage ≡ true
  pub result : stage_of out.0 lease.session_id position ≡ some out.1

pub store_completion-StageCompleted :
    (env : Env) (id position : ℕ) (token : String) (c : StageCompletion) (db : Db)
    (out : Db × StageRun)
    → store_completion env id position token c db ≡ ok out
    → StageCompleted env id position token c db out
unfolding store_completion
store_completion-StageCompleted env id position token c db out h =
    let (lease, hl, h1) = >>=-eq-ok (load_lease db id) _ h in
    let (hv, h2) = >>-eq-ok (verify_active_lease env lease token) _ h1 in
    let (hr, h3) =
      refuse_if-eq-ok
        (not (is_running lease.attempt_state) || not (Execution.is_running lease.execution_state)) _
        _ h2 in
    let (stage, hs, h4) = or_not_found-eq-ok (stage_of db lease.session_id position) _ h3 in
    let (hn, h5) =
      refuse_if-eq-ok (not (Stage.is_running stage.state) && not (is_replay c stage)) _ _ h4 in
    let after =
      if Stage.is_running stage.state then complete_stage_rows env lease position c db else db in
    let (completed, hk, h6) = or_not_found-eq-ok (stage_of after lease.session_id position) _ h5 in
    record {
      lease = lease;
      stage = stage;
      read = hl;
      loaded = load_lease-Loaded db id lease hl;
      holds = verify_active_lease-Holds env lease token hv;
      attempt_running = ground (arith, hr);
      found = hs;
      after = sym (ap (λ p. p.0) (ok-injective h6));
      replayed = λ settled. ground (arith, hn);
      result = subst (λ p. stage_of p.0 lease.session_id position ≡ some p.1) (ok-injective h6) hk;
    }

-- Completing a stage writes stages only.
pub complete_stage-Lockstep :
    (encode : Models → String) (env : Env) (id position : ℕ) (input : CompleteStageRequest)
    (db : Db) (out : Db × StageRun)
    → Lockstep db
    → complete_stage encode env id position input db ≡ ok out
    → Lockstep out.0
unfolding complete_stage complete_stage_rows
complete_stage-Lockstep encode env id position input db out lock h =
    let (c, hc, h1) = >>=-eq-ok (check_completion encode position input) _ h in
    let s = store_completion-StageCompleted env id position input.lease_token c db out h1 in
    subst Lockstep (sym s.after) (Lockstep-if (Stage.is_running s.stage.state) _ db lock lock)
