-- ===== src/Store/Complete/Endings.antt =====
-- The session that a completion leaves.
use not_so_simple_software_f.Prelude.{
  ℕ, ◌==◌, ◌≡◌, refl, sym, ap, subst, ◌∙◌, Bool, true, false, ◌&&◌, inl, inr, Option, none, some,
  String, arith, if◌then◌else◌, Bool-cases,
}
use not_so_simple_software_f.Table.Laws.{find_row-update_same}
use not_so_simple_software_f.Service.{ok}
use not_so_simple_software_f.Service.Laws.{ok-injective, some-injective}
use not_so_simple_software_f.Store.States.{
  AttemptState, ExecutionState, SessionState, owner_none, is_active, is_running, WorkUpdateStatus,
}
use not_so_simple_software_f.Store.Rows.{Attempt, Session, WorkUpdate, AttemptCost, Db, Env}
use not_so_simple_software_f.Store.Cost.{Models}
use not_so_simple_software_f.Store.Lease.{
  LeaseState, load_lease, update_run_lifecycle, attempt_of, session_of,
}
use not_so_simple_software_f.Store.Lease.Laws.{Loaded, Loaded-keys}
use not_so_simple_software_f.Store.Lockstep.{Lockstep, agree}
use not_so_simple_software_f.Store.Lockstep.Lease.{Loaded-agree}
use not_so_simple_software_f.Store.Complete.Outcome.{
  CompleteAttemptRequest, Completion, is_success, resolve, reported_outcome,
  completed_attempt_state,
}
use not_so_simple_software_f.Store.Complete.Sessions.{
  may_finish, finished, finish_session_rows, is_needs_input, id-finished, stops,
  stops_with_evidence, asks, reports,
}
use not_so_simple_software_f.Store.Complete.{complete_attempt, completed_db, finish_rows}
use not_so_simple_software_f.Store.Complete.Laws.{complete_attempt-cases, check_request-named}
use not_so_simple_software_f.Store.Complete.Replay.{attempt-completed_db}

-- A session that waits for an answer is open, and any other is closed at the time of the completion.
-- In either case nobody owns it.
pub record Ended (env : Env) (c : Completion) (s : Session) : Type 0 where
  pub state : s.state ≡ c.work_state
  pub owner : s.execution_owner ≡ owner_none
  pub terminal : s.terminal_at ≡ (if is_needs_input c.work_state then none else some env.now)

needs_input-eq : (w : SessionState) → is_needs_input w ≡ true → SessionState.needs_input ≡ w
needs_input-eq SessionState.needs_input h = refl
needs_input-eq w h = cc

stops_with_evidence-Ended :
    (env : Env) (u : WorkUpdate) (c : Completion) (status : WorkUpdateStatus) (s : Session)
    → is_needs_input c.work_state ≡ false
    → Ended env c (stops_with_evidence env u c status s)
unfolding stops_with_evidence stops
stops_with_evidence-Ended env u c WorkUpdateStatus.needs_input s closed = record {
  state = refl;
  owner = refl;
  terminal = rw closed refl;
}
stops_with_evidence-Ended env u c WorkUpdateStatus.ready s closed = record {
  state = refl;
  owner = refl;
  terminal = rw closed refl;
}
stops_with_evidence-Ended env u c status s closed = record {
  state = refl;
  owner = refl;
  terminal = rw closed refl;
}

finished-Ended :
    (env : Env) (c : Completion) (outcome : Option WorkUpdate) (s : Session)
    → (outcome ≡ none → is_needs_input c.work_state ≡ false)
    → Ended env c (finished env c outcome s)
unfolding finished stops asks reports
finished-Ended env c none s asked =
    let closed = asked refl in record { state = refl; owner = refl; terminal = rw closed refl }
finished-Ended env c (some u) s asked = elim (Bool-cases (is_needs_input c.work_state)) [
  | inl asking ↦ rw asking (record {
    state = needs_input-eq c.work_state asking;
    owner = refl;
    terminal = rw asking refl;
  })
  | inr closed ↦ elim (Bool-cases (is_success c.state)) [
    | inl good ↦
        rw (closed, good) (record { state = refl; owner = refl; terminal = rw closed refl })
    | inr bad ↦ rw (closed, bad) (stops_with_evidence-Ended env u c u.status s closed)
  ]
]

-- Only a report asks for input, and the attempt that made it succeeds.
resolve-asks :
    (lease : LeaseState) (outcome : Option WorkUpdate) (to : AttemptState)
    (input : CompleteAttemptRequest) (c : Completion)
    → resolve lease outcome to input ≡ ok c
    → (c.outcome ≡ none → is_needs_input c.work_state ≡ false)
      × (is_needs_input c.work_state ≡ true → is_success c.state ≡ true)
unfolding resolve
resolve-asks lease outcome to input c h = ground arith

-- The state in which the session of an agreeing attempt may be finished.
may_finish-agree :
    (c : Completion) (outcome : Option WorkUpdate) (attempt : AttemptState)
    (execution : ExecutionState) (session : SessionState)
    → agree attempt execution session ≡ true
    → (is_success c.state ≡ true → is_running attempt ≡ true)
    → (is_needs_input c.work_state ≡ true → is_success c.state ≡ true)
    → may_finish c outcome session ≡ true
unfolding may_finish
may_finish-agree c none attempt execution session same ran asks = ground arith
may_finish-agree c (some u) attempt execution session same ran asks = ground arith

-- The session that the updates leave.
completed_db-Ended :
    (env : Env) (id : ℕ) (lease : LeaseState) (cost : AttemptCost) (c : Completion) (db : Db)
    → (l : Loaded db id lease) → may_finish c c.outcome l.session.state ≡ true
    → (c.outcome ≡ none → is_needs_input c.work_state ≡ false)
    → (s : Session) × (session_of (completed_db env id lease cost c db) lease.session_id ≡ some s)
      × Ended env c s
unfolding completed_db update_run_lifecycle finish_rows finish_session_rows
completed_db-Ended env id lease cost c db l may asked =
    let test : Session → Bool = λ s. s.id == lease.session_id && may_finish c c.outcome s.state in
    let read =
      find_row-update_same (λ s. s.id) lease.session_id test (finished env c c.outcome) db.sessions
        l.session (λ s. id-finished env c c.outcome s) l.has_session in
    let meant : test l.session ≡ true = ground (arith, (Loaded-keys db id lease l).2, may) in
    (
      finished env c c.outcome l.session,
      read ∙ ap (λ b. some (if b then finished env c c.outcome l.session else l.session)) meant,
      finished-Ended env c c.outcome l.session asked,
    )

-- When a completion ends an active attempt, in a database where the attempts are in lockstep, the
-- session of the attempt is in the state that the completion resolved to and has no owner; it is open
-- when it waits for an answer, and closed at the time of the completion otherwise. The attempt is in
-- the resolved state too.
pub complete_attempt-Ended :
    (encode : Models → String) (env : Env) (id : ℕ) (input : CompleteAttemptRequest) (db : Db)
    (out : Db × Attempt) (lease : LeaseState)
    → Lockstep db
    → complete_attempt encode env id input db ≡ ok out
    → load_lease db id ≡ ok lease
    → is_active lease.attempt_state ≡ true
    → (to : AttemptState) × (c : Completion) × (completed_attempt_state input.state ≡ some to)
      × (resolve lease (reported_outcome lease db id) to input ≡ ok c)
      × (out.1.state ≡ c.state)
      × ((s : Session) × (session_of out.0 lease.session_id ≡ some s) × Ended env c s)
complete_attempt-Ended encode env id input db out lease lock h read active =
    let (checked, hc, cases) = complete_attempt-cases encode env id input db out h in
    let named = check_request-named encode input checked hc in
    elim cases [
      | inl r ↦
          let same = ok-injective (sym r.read ∙ read) in
          absurd (ground (arith, active, r.terminal, ap (λ l. l.attempt_state) same))
      | inr d ↦
          let c = d.completion in
          let l = d.loaded in
          let (asked, good) = resolve-asks d.lease _ checked.0 input c d.resolved in
          let may =
            may_finish-agree c c.outcome l.attempt.state l.execution.state l.session.state
              (Loaded-agree db id d.lease lock l d.holds.active)
              (λ s. ap is_running (sym l.attempt_state) ∙ d.was_running s) good in
          let (s, found, ended) = completed_db-Ended env id d.lease checked.1 c db l may asked in
          let written = some-injective (
            sym d.result
            ∙ ap (λ x. attempt_of x id) d.after
            ∙ attempt-completed_db env id d.lease checked.1 c db l d.holds.active) in
          (
            checked.0,
            c,
            named,
            subst (λ y. resolve y (reported_outcome y db id) checked.0 input ≡ ok c)
                (ok-injective (sym d.read ∙ read)) d.resolved,
            ap (λ a. a.state) written,
            (
              s,
              subst (λ y. session_of out.0 y.session_id ≡ some s) (ok-injective (sym d.read ∙ read))
                  (ap (λ x. session_of x d.lease.session_id) d.after ∙ found),
              ended,
            ),
          )
    ]
