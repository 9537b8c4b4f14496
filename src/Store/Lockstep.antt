-- ===== src/Store/Lockstep.antt =====
-- An attempt that is active moves in step with its execution and its session. The
-- invariant; its child holds the one lemma by which a transaction on a single attempt keeps it.
pub mod Keep
pub mod Same
pub mod Lease
use not_so_simple_software_f.Prelude.{ℕ, ◌==◌, ◌≡◌, Bool, true, false, List, Option, some}
use not_so_simple_software_f.Table.{find_row}
use not_so_simple_software_f.Store.States.{AttemptState, ExecutionState, SessionState, is_active}
use not_so_simple_software_f.Store.Rows.{Attempt, Execution, Session, Db}

-- The three states are `preparing`, or all are `running`.
abbrev pub agree : AttemptState → ExecutionState → SessionState → Bool
agree AttemptState.preparing ExecutionState.preparing SessionState.preparing = true
agree AttemptState.running ExecutionState.running SessionState.running = true
agree _ _ _ = false

abbrev pub attempt_at : List Attempt → ℕ → Option Attempt
attempt_at attempts i = find_row (λ a. a.id == i) attempts

abbrev pub execution_at : List Execution → ℕ → Option Execution
execution_at executions i = find_row (λ e. e.id == i) executions

abbrev pub session_at : List Session → ℕ → Option Session
session_at sessions i = find_row (λ s. s.id == i) sessions

module _ (attempts : List Attempt) (executions : List Execution) (sessions : List Session) where
  pub record Linked (a : Attempt) : Type 0 where
    pub execution : Execution
    pub session : Session
    pub has_execution : execution_at executions a.execution_id ≡ some execution
    pub has_session : session_at sessions execution.session_id ≡ some session
    pub agreeing : agree a.state execution.state session.state ≡ true

  pub record LockstepOf : Type 0 where
    pub linked :
        (i : ℕ) (a : Attempt) → attempt_at attempts i ≡ some a → is_active a.state ≡ true → Linked a
    pub one_active :
        (i j : ℕ) (a b : Attempt)
        → attempt_at attempts i ≡ some a
        → attempt_at attempts j ≡ some b
        → is_active a.state ≡ true
        → is_active b.state ≡ true
        → a.execution_id ≡ b.execution_id
        → i ≡ j
    pub one_execution :
        (i j : ℕ) (d e : Execution)
        → execution_at executions i ≡ some d
        → execution_at executions j ≡ some e
        → d.session_id ≡ e.session_id
        → i ≡ j

-- Every active attempt is linked with an execution and a session in the same state; no two active
-- attempts share an execution; no two executions share a session.
abbrev pub Lockstep : Db → Type 0
Lockstep db = LockstepOf db.attempts db.executions db.sessions
