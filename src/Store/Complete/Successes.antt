-- ===== src/Store/Complete/Successes.antt =====
-- An attempt succeeds only with its whole Pipeline.
use not_so_simple_software_f.Prelude.{
  ℕ, ◌==◌, ◌≤◌, ◌≡◌, refl, sym, ap, subst, ◌∙◌, Bool, true, false, not, ◌&&◌, inl, inr, List, ltb,
  String, arith, &&-left, &&-right, Bool-cases,
}
use not_so_simple_software_f.Table.{count_where, update_where, All}
use not_so_simple_software_f.Table.Laws.{count_where-le, All-count_where, All-update_where, All-map}
use not_so_simple_software_f.Service.{ok}
use not_so_simple_software_f.Service.Laws.{ok-injective, some-injective}
use not_so_simple_software_f.Store.States.Stage
use not_so_simple_software_f.Store.States.{is_active}
use not_so_simple_software_f.Store.Rows.{Attempt, StageRun, Db, Env}
use not_so_simple_software_f.Store.Cost.{Models}
use not_so_simple_software_f.Store.Lease.{LeaseState, load_lease, update_run_lifecycle, attempt_of}
use not_so_simple_software_f.Store.Complete.Outcome.{CompleteAttemptRequest, Completion, is_success}
use not_so_simple_software_f.Store.Complete.{
  complete_attempt, completed_db, finish_rows, finish_stages, fail_last_stage, complete_only_stage,
  completes_only_stage, counted_successes, stop_stages, stage_count, succeeded_stages, only_stage,
  is_incomplete,
}
use not_so_simple_software_f.Store.Complete.Laws.{complete_attempt-cases}
use not_so_simple_software_f.Store.Complete.Replay.{attempt-completed_db}

-- A stage of the session, and a stage that succeeded.
abbrev pub of_session : ℕ → StageRun → Bool
of_session session_id g = g.session_id == session_id

abbrev pub AllSucceeded : ℕ → List StageRun → Type 0
AllSucceeded session_id stages =
    All (λ g. of_session session_id g ≡ true → Stage.is_succeeded g.state ≡ true) stages

-- The guard of the transaction, on the stages as they are counted.
is_short : LeaseState → Completion → List StageRun → Bool
is_short lease c stages =
    ltb 0 (stage_count lease.session_id stages)
    && not (counted_successes lease c stages == stage_count lease.session_id stages)

succeeded_stages-le :
    (session_id : ℕ) (stages : List StageRun)
    → succeeded_stages session_id stages ≤ stage_count session_id stages
succeeded_stages-le session_id stages =
    count_where-le (of_session session_id)
      (λ g. of_session session_id g && Stage.is_succeeded g.state)
      (λ g h. &&-left (of_session session_id g) _ h) stages

counted-eq :
    (lease : LeaseState) (c : Completion) (stages : List StageRun)
    → is_short lease c stages ≡ false
    → counted_successes lease c stages ≡ stage_count lease.session_id stages
unfolding is_short counted_successes
counted-eq lease c stages complete =
    ground (arith, complete, succeeded_stages-le lease.session_id stages)

-- Every stage had succeeded before.
were_succeeded :
    (session_id : ℕ) (stages : List StageRun)
    → succeeded_stages session_id stages ≡ stage_count session_id stages
    → AllSucceeded session_id stages
were_succeeded session_id stages same =
    All-map _ _ stages
      (All-count_where (of_session session_id)
        (λ g. of_session session_id g && Stage.is_succeeded g.state)
        (λ g h. &&-left (of_session session_id g) _ h) stages same)
      (λ g all h. &&-right (of_session session_id g) _ (all h))

-- The only stage succeeds with the attempt.
becomes_succeeded :
    (session_id : ℕ) (change : StageRun → StageRun) (stages : List StageRun)
    → ((g : StageRun) → Stage.is_succeeded (change g).state ≡ true)
    → ((g : StageRun) → (change g).session_id ≡ g.session_id)
    → count_where (only_stage session_id) stages ≡ stage_count session_id stages
    → AllSucceeded session_id (update_where (only_stage session_id) change stages)
becomes_succeeded session_id change stages succeeds stays same =
    All-update_where _ _ (only_stage session_id) change stages
      (All-count_where (of_session session_id) (only_stage session_id) (λ g h. ground arith) stages
        same)
      (λ g all. ground (arith, all, succeeds g, stays g))

complete_only_stage-AllSucceeded :
    (env : Env) (lease : LeaseState) (c : Completion) (stages : List StageRun)
    → is_short lease c stages ≡ false
    → AllSucceeded lease.session_id (complete_only_stage env lease c stages)
unfolding complete_only_stage counted_successes
complete_only_stage-AllSucceeded env lease c stages complete =
    let same = counted-eq lease c stages complete in
    elim (Bool-cases (completes_only_stage lease c stages)) [
      | inl one ↦ rw one (
          becomes_succeeded lease.session_id _ stages (λ g. refl) (λ g. refl)
            (ground (arith, same, one)))
      | inr many ↦ rw many (were_succeeded lease.session_id stages (ground (arith, same, many)))
    ]

finish_stages-AllSucceeded :
    (env : Env) (lease : LeaseState) (c : Completion) (stages : List StageRun)
    → is_success c.state ≡ true
    → is_incomplete env lease c stages ≡ false
    → AllSucceeded lease.session_id (finish_stages env lease c stages)
unfolding finish_stages stop_stages is_short
finish_stages-AllSucceeded env lease c stages success complete = rw success (
    complete_only_stage-AllSucceeded env lease c (fail_last_stage env lease c stages)
      (ground (arith, success, complete)))

-- When a completion makes an active attempt succeed, every stage of the attempt's session has
-- succeeded in the database that it leaves.
pub complete_attempt-AllSucceeded :
    (encode : Models → String) (env : Env) (id : ℕ) (input : CompleteAttemptRequest) (db : Db)
    (out : Db × Attempt) (lease : LeaseState)
    → complete_attempt encode env id input db ≡ ok out
    → load_lease db id ≡ ok lease
    → is_active lease.attempt_state ≡ true
    → is_success out.1.state ≡ true
    → AllSucceeded lease.session_id out.0.stages
unfolding completed_db update_run_lifecycle finish_rows
complete_attempt-AllSucceeded encode env id input db out lease h read active success =
    let (checked, hc, cases) = complete_attempt-cases encode env id input db out h in
    elim cases [
      | inl r ↦
          let same = ok-injective (sym r.read ∙ read) in
          absurd (ground (arith, active, r.terminal, ap (λ l. l.attempt_state) same))
      | inr s ↦
          let same = ok-injective (sym s.read ∙ read) in
          let written = some-injective (
            sym s.result
            ∙ ap (λ d. attempt_of d id) s.after
            ∙ attempt-completed_db env id s.lease checked.1 s.completion db s.loaded
                s.holds.active) in
          subst (λ l. AllSucceeded l.session_id out.0.stages) same
            (subst (λ d. AllSucceeded s.lease.session_id d.stages) (sym s.after)
              (finish_stages-AllSucceeded env s.lease s.completion db.stages
                (sym (ap (λ a. is_success a.state) written) ∙ success) s.complete))
    ]
