-- ===== src/Store/Lockstep/Lease.antt =====
-- A lease that was loaded and verified in a lockstep database: its rows, and that they agree.
use not_so_simple_software_f.Prelude.{ℕ, ◌≡◌, sym, true, arith}
use not_so_simple_software_f.Store.States.{is_active}
use not_so_simple_software_f.Store.Rows.{Db}
use not_so_simple_software_f.Store.Lease.{LeaseState}
use not_so_simple_software_f.Store.Lease.Laws.{Loaded}
use not_so_simple_software_f.Store.Lockstep.{agree, Lockstep}
use not_so_simple_software_f.Store.Lockstep.Keep.{Held}

module _ (db : Db) (id : ℕ) (lease : LeaseState) (lock : Lockstep db) (loaded : Loaded db id lease)
    (active : is_active lease.attempt_state ≡ true) where
  pub Loaded-Held :
      Held db.attempts db.executions db.sessions id lease.execution_id lease.session_id
  Loaded-Held = record {
    attempt = loaded.attempt;
    execution = loaded.execution;
    session = loaded.session;
    has_attempt = loaded.has_attempt;
    has_execution = loaded.has_execution;
    has_session = loaded.has_session;
    execution_id = sym loaded.execution_id;
    session_id = sym loaded.session_id;
    active = ground (arith, loaded.attempt_state);
  }

  pub Loaded-agree : agree loaded.attempt.state loaded.execution.state loaded.session.state ≡ true
  Loaded-agree =
      let l =
        lock.linked id loaded.attempt loaded.has_attempt (ground (arith, loaded.attempt_state)) in
      ground (
        arith, l.has_execution, l.has_session, l.agreeing, loaded.has_execution, loaded.has_session,
        loaded.execution_id, loaded.session_id,
      )
