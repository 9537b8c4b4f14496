-- ===== src/Store/Steps/Written.antt =====
-- Each transaction touches the attempts one at a time.
use not_so_simple_software_f.Prelude.{
  ℕ, ◌≡◌, refl, sym, ap, ◌∙◌, subst, Bool, true, false, inl, inr, String, List, arith,
  if◌then◌else◌,
}
use not_so_simple_software_f.Table.{update_where}
use not_so_simple_software_f.Service.{ok}
use not_so_simple_software_f.Service.Laws.{>>=-eq-ok}
use not_so_simple_software_f.Store.States.{AttemptState, is_active, is_preparing}
use not_so_simple_software_f.Store.Rows.{Attempt, StageRun, Db, Env}
use not_so_simple_software_f.Store.Cost.{Models}
use not_so_simple_software_f.Store.Lease.{LeaseState, update_run_lifecycle}
use not_so_simple_software_f.Store.Lease.Laws.{Loaded}
use not_so_simple_software_f.Store.Start.{
  StartAttemptRequest, start_attempt, start_rows, clear_pending_resume,
}
use not_so_simple_software_f.Store.Start.Laws.{start_attempt-Started, start_transition_cases}
use not_so_simple_software_f.Store.Heartbeat.{HeartbeatResponse, heartbeat, extend_rows}
use not_so_simple_software_f.Store.Heartbeat.Laws.{heartbeat-Beaten}
use not_so_simple_software_f.Store.Stages.{
  StartStageRequest, start_stage, start_stage_rows, CompleteStageRequest, complete_stage,
  complete_stage_rows, check_completion,
}
use not_so_simple_software_f.Store.Stages.Laws.{
  start_stage-StageStarted, store_completion-StageCompleted,
}
use not_so_simple_software_f.Store.Complete.Outcome.{CompleteAttemptRequest}
use not_so_simple_software_f.Store.Complete.{complete_attempt, completed_db, finish_rows}
use not_so_simple_software_f.Store.Complete.Laws.{
  complete_attempt-cases, check_request-named, resolve-ends,
}
use not_so_simple_software_f.Store.Steps.{Moves, stays, starts, ends}
use not_so_simple_software_f.Store.Steps.Touch.{Touch}

pub data Touches (before : List Attempt) : List Attempt → Type 0 where
  untouched : Touches before before
  touched : {mid after : List Attempt} → Touches before mid → Touch mid after → Touches before after

pub Touch-once : {before after : List Attempt} → Touch before after → Touches before after
Touch-once t = touched untouched t

pub same_attempts : {before after : List Attempt} → after ≡ before → Touches before after
same_attempts {before} e = subst (Touches before) (sym e) untouched

lease_active :
    {db : Db} {id : ℕ} {lease : LeaseState} (l : Loaded db id lease)
    → is_active lease.attempt_state ≡ true
    → is_active l.attempt.state ≡ true
lease_active l active = ground (arith, l.attempt_state)

-- An update of the attempt that a lease was loaded of.
module _ {db : Db} {id : ℕ} {lease : LeaseState} (l : Loaded db id lease)
    (active : is_active lease.attempt_state ≡ true) (test : Attempt → Bool)
    (change : Attempt → Attempt) where
  touch_loaded :
      {after : List Attempt}
      → ((a : Attempt) → (change a).id ≡ a.id)
      → ((a : Attempt) → test a ≡ true → a.id ≡ id)
      → ((a : Attempt) → test a ≡ true → Moves a.state (change a).state)
      → after ≡ update_where test change db.attempts
      → Touches db.attempts after
  touch_loaded key only moves written = Touch-once (record {
    id = id;
    attempt = l.attempt;
    has_attempt = l.has_attempt;
    active = lease_active l active;
    test = test;
    change = change;
    key = key;
    only = only;
    moves = moves;
    written = written;
  })

attempts-clear_pending_resume :
    (lease : LeaseState) (input : StartAttemptRequest) (db : Db)
    → (clear_pending_resume lease input db).attempts ≡ db.attempts
unfolding clear_pending_resume
attempts-clear_pending_resume lease input db = ground arith

start_move : (a : Attempt) → is_preparing a.state ≡ true → Moves a.state AttemptState.running
start_move a h = go a.state h
  where
    go : (s : AttemptState) → is_preparing s ≡ true → Moves s AttemptState.running
    go AttemptState.preparing e = starts
    go AttemptState.running e = cc
    go AttemptState.succeeded e = cc
    go AttemptState.failed e = cc
    go AttemptState.cancelled e = cc
    go AttemptState.lost e = cc

pub start_attempt-Touches :
    (env : Env) (id : ℕ) (input : StartAttemptRequest) (db : Db) (out : Db × Attempt)
    → start_attempt env id input db ≡ ok out
    → Touches db.attempts out.0.attempts
unfolding start_rows
start_attempt-Touches env id input db out h =
    let s = start_attempt-Started env id input db out h in
    let cleared =
      ap (λ d. d.attempts) s.after ∙ attempts-clear_pending_resume s.lease input s.started in
    elim (start_transition_cases env id s.lease input db s.started s.transition) [
      | inl e ↦
          touch_loaded s.loaded s.holds.active _ _ (λ a. refl) (λ a t. ground arith)
            (λ a t. start_move a (ground arith)) (cleared ∙ ap (λ d. d.attempts) e)
      | inr e ↦ same_attempts (cleared ∙ ap (λ d. d.attempts) e)
    ]

pub heartbeat-Touches :
    (env : Env) (id : ℕ) (token : String) (db : Db) (out : Db × HeartbeatResponse)
    → heartbeat env id token db ≡ ok out
    → Touches db.attempts out.0.attempts
unfolding extend_rows
heartbeat-Touches env id token db out h =
    let s = heartbeat-Beaten env id token db out h in
    touch_loaded s.loaded s.holds.active _ _ (λ a. refl) (λ a t. ground arith) (λ a t. stays)
      (ap (λ d. d.attempts) s.after)

pub start_stage-Touches :
    (env : Env) (id position : ℕ) (input : StartStageRequest) (db : Db) (out : Db × StageRun)
    → start_stage env id position input db ≡ ok out
    → Touches db.attempts out.0.attempts
unfolding start_stage_rows
start_stage-Touches env id position input db out h =
    let s = start_stage-StageStarted env id position input db out h in
    touch_loaded s.loaded s.holds.active _ _ (λ a. refl) (λ a t. ground arith) (λ a t. stays)
      (ap (λ d. d.attempts) s.after)

attempts-if :
    (b : Bool) (x y : Db) (rows : List Attempt)
    → x.attempts ≡ rows
    → y.attempts ≡ rows
    → (if b then x else y).attempts ≡ rows
attempts-if true x y rows h k = h
attempts-if false x y rows h k = k

attempts-complete_stage :
    (encode : Models → String) (env : Env) (id position : ℕ) (input : CompleteStageRequest)
    (db : Db) (out : Db × StageRun)
    → complete_stage encode env id position input db ≡ ok out
    → out.0.attempts ≡ db.attempts
unfolding complete_stage complete_stage_rows
attempts-complete_stage encode env id position input db out h =
    let (c, hc, h1) = >>=-eq-ok (check_completion encode position input) _ h in
    let s = store_completion-StageCompleted env id position input.lease_token c db out h1 in
    ap (λ d. d.attempts) s.after ∙ attempts-if _ _ db db.attempts refl refl

pub complete_stage-Touches :
    (encode : Models → String) (env : Env) (id position : ℕ) (input : CompleteStageRequest)
    (db : Db) (out : Db × StageRun)
    → complete_stage encode env id position input db ≡ ok out
    → Touches db.attempts out.0.attempts
complete_stage-Touches encode env id position input db out h =
    same_attempts (attempts-complete_stage encode env id position input db out h)

pub complete_attempt-Touches :
    (encode : Models → String) (env : Env) (id : ℕ) (input : CompleteAttemptRequest) (db : Db)
    (out : Db × Attempt)
    → complete_attempt encode env id input db ≡ ok out
    → Touches db.attempts out.0.attempts
unfolding completed_db update_run_lifecycle finish_rows
complete_attempt-Touches encode env id input db out h =
    let (checked, hc, cases) = complete_attempt-cases encode env id input db out h in
    let named = check_request-named encode input checked hc in
    elim cases [
      | inl r ↦ same_attempts (ap (λ d. d.attempts) r.same)
      | inr s ↦
          touch_loaded s.loaded s.holds.active _ _ (λ a. refl) (λ a t. ground arith)
            (λ a t.
              ends (ground arith)
                (resolve-ends s.lease _ input.state checked.0 input s.completion named
                  s.resolved).0)
            (ap (λ d. d.attempts) s.after)
    ]
