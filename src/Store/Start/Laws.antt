-- ===== src/Store/Start/Laws.antt =====
-- What a StartAttempt that succeeded did, and that it keeps the lockstep.
use not_so_simple_software_f.Prelude.{
  ℕ, ◌≡◌, refl, sym, ap, Bool-cases, ◌⊎◌, inl, inr, subst, true, some, arith,
}
use not_so_simple_software_f.Service.{ok}
use not_so_simple_software_f.Service.Laws.{
  >>=-eq-ok, >>-eq-ok, refuse_if-eq-ok, or_not_found-eq-ok, ok-injective,
}
use not_so_simple_software_f.Store.States.{is_active}
use not_so_simple_software_f.Store.Rows.{Attempt, Db, Env}
use not_so_simple_software_f.Store.Lease.{
  LeaseState, load_lease, verify_active_lease, attempt_of, session_of,
}
use not_so_simple_software_f.Store.Lease.Laws.{
  Holds, Loaded, Loaded-keys, verify_active_lease-Holds, load_lease-Loaded,
}
use not_so_simple_software_f.Store.Lockstep.{Lockstep}
use not_so_simple_software_f.Store.Lockstep.Keep.{Lockstep-keep}
use not_so_simple_software_f.Store.Lockstep.Same.{Lockstep-sessions}
use not_so_simple_software_f.Store.Lockstep.Lease.{Loaded-Held, Loaded-agree}
use not_so_simple_software_f.Store.Start.{
  StartAttemptRequest, start_attempt, start_transition, start_rows, clear_pending_resume,
}

-- The parts of a start that succeeded.
pub record Started (env : Env) (id : ℕ) (input : StartAttemptRequest) (db : Db) (out : Db × Attempt)
    : Type 0 where
  pub lease : LeaseState
  pub started : Db
  pub loaded : Loaded db id lease
  pub holds : Holds env lease input.lease_token
  pub transition : start_transition env id lease input db ≡ ok started
  pub after : out.0 ≡ clear_pending_resume lease input started
  pub result : attempt_of out.0 id ≡ some out.1

pub start_attempt-Started :
    (env : Env) (id : ℕ) (input : StartAttemptRequest) (db : Db) (out : Db × Attempt)
    → start_attempt env id input db ≡ ok out
    → Started env id input db out
unfolding start_attempt
start_attempt-Started env id input db out h =
    let (_, h1) = refuse_if-eq-ok _ _ _ h in
    let (lease, hl, h2) = >>=-eq-ok (load_lease db id) _ h1 in
    let (hv, h3) = >>-eq-ok (verify_active_lease env lease input.lease_token) _ h2 in
    let (session, hs, h4) = or_not_found-eq-ok (session_of db lease.session_id) _ h3 in
    let (_, h5) = refuse_if-eq-ok _ _ _ h4 in
    let (started, ht, h6) = >>=-eq-ok (start_transition env id lease input db) _ h5 in
    let (attempt, ha, h7) =
      or_not_found-eq-ok (attempt_of (clear_pending_resume lease input started) id) _ h6 in
    record {
      lease = lease;
      started = started;
      loaded = load_lease-Loaded db id lease hl;
      holds = verify_active_lease-Holds env lease input.lease_token hv;
      transition = ht;
      after = sym (ap (λ p. p.0) (ok-injective h7));
      result = subst (λ p. attempt_of p.0 id ≡ some p.1) (ok-injective h7) ha;
    }

-- The updates of a start leave every key alone.
start_rows-Lockstep :
    (env : Env) (id : ℕ) (lease : LeaseState) (input : StartAttemptRequest) (db : Db)
    → Lockstep db
    → Loaded db id lease
    → is_active lease.attempt_state ≡ true
    → Lockstep (start_rows env id lease input db)
unfolding start_rows
start_rows-Lockstep env id lease input db lock loaded active =
    Lockstep-keep db.attempts db.executions db.sessions id lease.execution_id lease.session_id _ _ _
      _ _ _ lock (Loaded-Held db id lease lock loaded active)
      (record {
        attempt_key = λ a. refl;
        attempt_ref = λ a. refl;
        attempt_only = λ a h. ground arith;
        execution_key = λ e. refl;
        execution_ref = λ e. refl;
        execution_only = λ e h. ground arith;
        session_key = λ s. refl;
        session_only = λ s h. ground arith;
      })
      (λ _.
        ground (arith, Loaded-agree db id lease lock loaded active, Loaded-keys db id lease loaded))

-- Clearing the pending commit moves no state.
clear_pending_resume-Lockstep :
    (lease : LeaseState) (input : StartAttemptRequest) (db : Db)
    → Lockstep db
    → Lockstep (clear_pending_resume lease input db)
unfolding clear_pending_resume
clear_pending_resume-Lockstep lease input db lock = elim (Bool-cases input.runtime_started) [
  | inl yes_started ↦ rw yes_started (Lockstep-sessions _ _ (λ s. refl) (λ s. refl) lock)
  | inr not_started ↦ rw not_started lock
]

pub start_transition_cases :
    (env : Env) (id : ℕ) (lease : LeaseState) (input : StartAttemptRequest) (db started : Db)
    → start_transition env id lease input db ≡ ok started
    → (started ≡ start_rows env id lease input db) ⊎ (started ≡ db)
unfolding start_transition
start_transition_cases env id lease input db started h = ground arith

start_transition-Lockstep :
    (env : Env) (id : ℕ) (lease : LeaseState) (input : StartAttemptRequest) (db started : Db)
    → Lockstep db
    → Loaded db id lease
    → is_active lease.attempt_state ≡ true
    → start_transition env id lease input db ≡ ok started
    → Lockstep started
start_transition-Lockstep env id lease input db started lock loaded active h =
    elim (start_transition_cases env id lease input db started h) [
      | inl e ↦ rw e (start_rows-Lockstep env id lease input db lock loaded active)
      | inr e ↦ rw e lock
    ]

-- A start keeps every active attempt in step with its execution and its session.
pub start_attempt-Lockstep :
    (env : Env) (id : ℕ) (input : StartAttemptRequest) (db : Db) (out : Db × Attempt)
    → Lockstep db
    → start_attempt env id input db ≡ ok out
    → Lockstep out.0
start_attempt-Lockstep env id input db out lock h =
    let s = start_attempt-Started env id input db out h in
    rw s.after (
      clear_pending_resume-Lockstep s.lease input s.started (
        start_transition-Lockstep env id s.lease input db s.started lock s.loaded s.holds.active
          s.transition))
