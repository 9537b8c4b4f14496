-- ===== src/Store/Lockstep/Keep.antt =====
-- A transaction that updates one attempt, its execution and its session keeps the lockstep.
use native.Mathlib.Decide.{ℕ_discrete}
use not_so_simple_software_f.Prelude.{
  ℕ, ◌≡◌, ◌≢◌, refl, Bool, true, List, some, arith, sym, ◌∙◌, ap, subst,
}
use not_so_simple_software_f.Table.{update_where}
use not_so_simple_software_f.Table.Laws.{updated, find_row-update_same, find_row-update_other}
use not_so_simple_software_f.Store.States.{is_active}
use not_so_simple_software_f.Store.Rows.{Attempt, Execution, Session}
use not_so_simple_software_f.Store.Lockstep.{
  agree, attempt_at, execution_at, session_at, Linked, LockstepOf,
}

-- What the rows of an attempt's lease are, and that it is active.
pub record Held (attempts : List Attempt) (executions : List Execution) (sessions : List Session)
    (id eid sid : ℕ) : Type 0 where
  pub attempt : Attempt
  pub execution : Execution
  pub session : Session
  pub has_attempt : attempt_at attempts id ≡ some attempt
  pub has_execution : execution_at executions eid ≡ some execution
  pub has_session : session_at sessions sid ≡ some session
  pub execution_id : attempt.execution_id ≡ eid
  pub session_id : execution.session_id ≡ sid
  pub active : is_active attempt.state ≡ true

-- The updates of a transaction: each keeps the keys and touches no row but its own.
pub record OnlyAt (id eid sid : ℕ) (pa : Attempt → Bool) (fa : Attempt → Attempt)
    (pe : Execution → Bool) (fe : Execution → Execution) (ps : Session → Bool)
    (fs : Session → Session) : Type 0 where
  pub attempt_key : (a : Attempt) → (fa a).id ≡ a.id
  pub attempt_ref : (a : Attempt) → (fa a).execution_id ≡ a.execution_id
  pub attempt_only : (a : Attempt) → pa a ≡ true → a.id ≡ id
  pub execution_key : (e : Execution) → (fe e).id ≡ e.id
  pub execution_ref : (e : Execution) → (fe e).session_id ≡ e.session_id
  pub execution_only : (e : Execution) → pe e ≡ true → e.id ≡ eid
  pub session_key : (s : Session) → (fs s).id ≡ s.id
  pub session_only : (s : Session) → ps s ≡ true → s.id ≡ sid

module _ (attempts : List Attempt) (executions : List Execution) (sessions : List Session)
    (id eid sid : ℕ) (pa : Attempt → Bool) (fa : Attempt → Attempt) (pe : Execution → Bool)
    (fe : Execution → Execution) (ps : Session → Bool) (fs : Session → Session)
    (lock : LockstepOf attempts executions sessions)
    (held : Held attempts executions sessions id eid sid)
    (only : OnlyAt id eid sid pa fa pe fe ps fs)
    (step : is_active (updated pa fa held.attempt).state ≡ true
      → agree
          (updated pa fa held.attempt).state
          (updated pe fe held.execution).state
          (updated ps fs held.session).state
        ≡ true) where
  abbrev attempts' : List Attempt
  attempts' = update_where pa fa attempts

  abbrev executions' : List Execution
  executions' = update_where pe fe executions

  abbrev sessions' : List Session
  sessions' = update_where ps fs sessions

  attempt_other : (i : ℕ) → i ≢ id → attempt_at attempts' i ≡ attempt_at attempts i
  attempt_other i ne =
      find_row-update_other (λ a. a.id) i id pa fa attempts only.attempt_key only.attempt_only ne

  execution_other : (i : ℕ) → i ≢ eid → execution_at executions' i ≡ execution_at executions i
  execution_other i ne =
      find_row-update_other (λ e. e.id) i eid pe fe executions only.execution_key
        only.execution_only ne

  session_other : (i : ℕ) → i ≢ sid → session_at sessions' i ≡ session_at sessions i
  session_other i ne =
      find_row-update_other (λ s. s.id) i sid ps fs sessions only.session_key only.session_only ne

  attempt_now : attempt_at attempts' id ≡ some (updated pa fa held.attempt)
  attempt_now =
      find_row-update_same (λ a. a.id) id pa fa attempts held.attempt only.attempt_key
        held.has_attempt

  execution_now : execution_at executions' eid ≡ some (updated pe fe held.execution)
  execution_now =
      find_row-update_same (λ e. e.id) eid pe fe executions held.execution only.execution_key
        held.has_execution

  session_now : session_at sessions' sid ≡ some (updated ps fs held.session)
  session_now =
      find_row-update_same (λ s. s.id) sid ps fs sessions held.session only.session_key
        held.has_session

  -- An active attempt after the updates was one before them, of the same execution.
  attempt_back :
      (i : ℕ) (b : Attempt)
      → attempt_at attempts' i ≡ some b
      → is_active b.state ≡ true
      → (a : Attempt) × (attempt_at attempts i ≡ some a)
        × (is_active a.state ≡ true)
        × (a.execution_id ≡ b.execution_id)
  attempt_back i b h active = elim (ℕ_discrete i id) [
    | yes same ↦ (
      held.attempt,
      ground (arith, held.has_attempt),
      held.active,
      ground (arith, attempt_now, only.attempt_ref held.attempt),
    )
    | no ne ↦ (b, ground (arith, attempt_other i ne), active, refl)
  ]

  -- An execution after the updates is of the session that it was of before them.
  execution_back :
      (i : ℕ) (e : Execution)
      → execution_at executions' i ≡ some e
      → (d : Execution) × (execution_at executions i ≡ some d) × (d.session_id ≡ e.session_id)
  execution_back i e h = elim (ℕ_discrete i eid) [
    | yes same ↦ (
      held.execution,
      ground (arith, held.has_execution),
      ground (arith, execution_now, only.execution_ref held.execution),
    )
    | no ne ↦ (e, ground (arith, execution_other i ne), refl)
  ]

  Linked-same :
      (b : Attempt)
      → updated pa fa held.attempt ≡ b
      → is_active b.state ≡ true
      → Linked attempts' executions' sessions' b
  Linked-same b e active =
      let at_eid : b.execution_id ≡ eid =
        ground (arith, only.attempt_ref held.attempt, held.execution_id) in
      let at_sid : (updated pe fe held.execution).session_id ≡ sid =
        ground (arith, only.execution_ref held.execution, held.session_id) in
      record {
        execution = updated pe fe held.execution;
        session = updated ps fs held.session;
        has_execution = ap (execution_at executions') at_eid ∙ execution_now;
        has_session = ap (session_at sessions') at_sid ∙ session_now;
        agreeing =
            subst
              (λ a.
                is_active a.state ≡ true
                → agree a.state (updated pe fe held.execution).state
                    (updated ps fs held.session).state
                  ≡ true)
              e step active;
      }

  Linked-other :
      (i : ℕ) (b : Attempt)
      → i ≢ id
      → attempt_at attempts i ≡ some b
      → is_active b.state ≡ true
      → Linked attempts' executions' sessions' b
  Linked-other i b ne h active =
      let l = lock.linked i b h active in
      let apart : b.execution_id ≢ eid = λ e. ne (
        lock.one_active i id b held.attempt h held.has_attempt active held.active
          (e ∙ sym held.execution_id)) in
      let apart' : l.execution.session_id ≢ sid = λ e. apart (
        lock.one_execution b.execution_id eid l.execution held.execution l.has_execution
          held.has_execution (e ∙ sym held.session_id)) in
      record {
        execution = l.execution;
        session = l.session;
        has_execution = execution_other b.execution_id apart ∙ l.has_execution;
        has_session = session_other l.execution.session_id apart' ∙ l.has_session;
        agreeing = l.agreeing;
      }

  pub Lockstep-keep : LockstepOf attempts' executions' sessions'
  Lockstep-keep = record {
    linked = λ i b h active. elim (ℕ_discrete i id) [
      | yes same ↦ Linked-same b (ground (arith, attempt_now)) active
      | no ne ↦ Linked-other i b ne (sym (attempt_other i ne) ∙ h) active
    ];
    one_active = λ i j a b ha hb aa ab e.
        let (x, hx, ax, ex) = attempt_back i a ha aa in
        let (y, hy, ay, ey) = attempt_back j b hb ab in
        lock.one_active i j x y hx hy ax ay (ex ∙ e ∙ sym ey);
    one_execution = λ i j d e hd he same.
        let (x, hx, ex) = execution_back i d hd in
        let (y, hy, ey) = execution_back j e he in
        lock.one_execution i j x y hx hy (ex ∙ same ∙ sym ey);
  }
