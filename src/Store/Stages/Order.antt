-- ===== src/Store/Stages/Order.antt =====
-- The order of a Pipeline: a stage starts after the ones before it, and one that stops takes the ones
-- after it with it.
use not_so_simple_software_f.Prelude.{
  ℕ, ◌==◌, ◌≡◌, refl, sym, ap, subst, ◌∙◌, Bool, true, false, ◌&&◌, List, ltb, String, some, arith,
  if◌then◌else◌,
}
use not_so_simple_software_f.Table.{All}
use not_so_simple_software_f.Table.Laws.{
  All-count_where-zero, All-update_where, All-map, All-everywhere, find_row-update_where,
  find_row_test,
}
use not_so_simple_software_f.Service.{ok}
use not_so_simple_software_f.Service.Laws.{ok-injective, >>=-eq-ok}
use not_so_simple_software_f.Store.States.{StageRunState}
use not_so_simple_software_f.Store.States.Stage
use not_so_simple_software_f.Store.Rows.{StageRun, Db, Env}
use not_so_simple_software_f.Store.Cost.{Models}
use not_so_simple_software_f.Store.Lease.{LeaseState, load_lease, coalesce}
use not_so_simple_software_f.Store.Stages.{
  StartStageRequest, start_stage, start_stage_rows, at_stage, stage_of, incomplete_before,
  CompleteStageRequest, StageCompletion, check_completion, complete_stage, complete_stage_rows,
  completed_stage_state,
}
use not_so_simple_software_f.Store.Stages.Laws.{
  start_stage-StageStarted, check_completion-IsChecked, store_completion-StageCompleted,
}

-- A stage of the session before a position, or after it.
abbrev pub is_before : ℕ → ℕ → StageRun → Bool
is_before session_id position g = g.session_id == session_id && ltb g.position position

abbrev pub is_after : ℕ → ℕ → StageRun → Bool
is_after session_id position g = g.session_id == session_id && ltb position g.position

abbrev pub Before : ℕ → ℕ → List StageRun → Type 0
Before session_id position stages =
    All (λ g. is_before session_id position g ≡ true → Stage.is_succeeded g.state ≡ true) stages

start_stage_rows-Before :
    (env : Env) (id : ℕ) (lease : LeaseState) (position : ℕ) (input : StartStageRequest) (db : Db)
    → incomplete_before lease.session_id position db ≡ 0
    → Before lease.session_id position (start_stage_rows env id lease position input db).stages
unfolding start_stage_rows
start_stage_rows-Before env id lease position input db none_left =
    All-update_where _ _ (at_stage lease.session_id position) _ db.stages
      (All-count_where-zero _ db.stages none_left) (λ g done before. ground (arith, done))

start_stage_rows-running :
    (env : Env) (id : ℕ) (lease : LeaseState) (position : ℕ) (input : StartStageRequest) (db : Db)
    (stage : StageRun) (out : StageRun)
    → stage_of db lease.session_id position ≡ some stage
    → stage_of (start_stage_rows env id lease position input db) lease.session_id position
      ≡ some out
    → out.state ≡ StageRunState.running
unfolding start_stage_rows
start_stage_rows-running env id lease position input db stage out found after =
    let here_too = find_row_test (at_stage lease.session_id position) db.stages stage found in
    let read =
      find_row-update_where (at_stage lease.session_id position)
        (at_stage lease.session_id position)
        (λ g. record g {
          state = StageRunState.running;
          started_at = coalesce g.started_at env.now;
        })
        db.stages stage (λ g. refl) found in
    ground (arith, after, read, here_too)

-- When a stage starts, every stage before it in its session has succeeded, before and after the start,
-- and the stage is running.
pub start_stage-Before :
    (env : Env) (id position : ℕ) (input : StartStageRequest) (db : Db) (out : Db × StageRun)
    (lease : LeaseState)
    → start_stage env id position input db ≡ ok out
    → load_lease db id ≡ ok lease
    → Before lease.session_id position db.stages
      × Before lease.session_id position out.0.stages
      × (out.1.state ≡ StageRunState.running)
start_stage-Before env id position input db out lease h read =
    let s = start_stage-StageStarted env id position input db out h in
    let same = ok-injective (sym s.read ∙ read) in
    subst
      (λ l.
        Before l.session_id position db.stages
        × Before l.session_id position out.0.stages
        × (out.1.state ≡ StageRunState.running))
      same
      (
        All-map _ _ db.stages (All-count_where-zero _ db.stages s.predecessors)
            (λ g done before. ground (arith, done)),
        subst (λ d. Before s.lease.session_id position d.stages) (sym s.after)
            (start_stage_rows-Before env id s.lease position input db s.predecessors),
        start_stage_rows-running env id s.lease position input db s.stage out.1 s.found
            (ap (λ d. stage_of d s.lease.session_id position) (sym s.after) ∙ s.result),
      )

-- The stages of the session after a position are not pending.
abbrev pub NoneWaiting : ℕ → ℕ → List StageRun → Type 0
NoneWaiting session_id position stages =
    All (λ g. is_after session_id position g ≡ true → Stage.is_pending g.state ≡ false) stages

complete_stage_rows-NoneWaiting :
    (env : Env) (lease : LeaseState) (position : ℕ) (c : StageCompletion) (db : Db)
    → Stage.is_succeeded c.state ≡ false
    → NoneWaiting lease.session_id position (complete_stage_rows env lease position c db).stages
unfolding complete_stage_rows
complete_stage_rows-NoneWaiting env lease position c db stopped = rw stopped (
    All-update_where _
      (λ g. is_after lease.session_id position g ≡ true → Stage.is_pending g.state ≡ false)
      (λ g. g.session_id == lease.session_id && ltb position g.position && Stage.is_pending g.state)
      (λ g. record g { state = StageRunState.cancelled; completed_at = some env.now }) _
      (All-everywhere (λ g. Unit {0}) _ (λ g. tt)) (λ g u later. ground (arith, later)))

-- When a running stage is completed without success, no later stage of its session is left waiting.
pub complete_stage-NoneWaiting :
    (encode : Models → String) (env : Env) (id position : ℕ) (input : CompleteStageRequest)
    (db : Db) (out : Db × StageRun) (lease : LeaseState) (stage : StageRun) (to : StageRunState)
    → complete_stage encode env id position input db ≡ ok out
    → load_lease db id ≡ ok lease
    → stage_of db lease.session_id position ≡ some stage
    → Stage.is_running stage.state ≡ true
    → completed_stage_state input.state ≡ some to
    → Stage.is_succeeded to ≡ false
    → NoneWaiting lease.session_id position out.0.stages
unfolding complete_stage
complete_stage-NoneWaiting encode env id position input db out lease stage to h read found runs
      named fails =
    let (c, hc, h1) = >>=-eq-ok (check_completion encode position input) _ h in
    let s = store_completion-StageCompleted env id position input.lease_token c db out h1 in
    let same = ok-injective (sym s.read ∙ read) in
    let ran : Stage.is_running s.stage.state ≡ true =
      let one = subst (λ l. stage_of db l.session_id position ≡ some s.stage) same s.found in
      ground (arith, one, found, runs) in
    let stopped : Stage.is_succeeded c.state ≡ false =
      let asked = (check_completion-IsChecked encode position input c hc).requested in
      ground (arith, asked, named, fails) in
    subst (λ l. NoneWaiting l.session_id position out.0.stages) same
      (subst (λ d. NoneWaiting s.lease.session_id position d.stages)
        (sym
          (s.after ∙ ap (λ b. if b then complete_stage_rows env s.lease position c db else db) ran))
        (complete_stage_rows-NoneWaiting env s.lease position c db stopped))
