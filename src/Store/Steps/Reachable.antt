-- ===== src/Store/Steps/Reachable.antt =====
-- What holds of the attempts over every history of the seven transactions of Step.
use not_so_simple_software_f.Prelude.{ℕ, ◌≡◌, refl, true, String, List, some}
use not_so_simple_software_f.Store.States.{AttemptState, is_terminal}
use not_so_simple_software_f.Store.Rows.{Attempt, Db}
use not_so_simple_software_f.Store.Cost.{Models}
use not_so_simple_software_f.Store.Events.{Json}
use not_so_simple_software_f.Store.Events.Append.{append_events-attempts, append_events-Lockstep}
use not_so_simple_software_f.Store.Lease.{attempt_of}
use not_so_simple_software_f.Store.Lockstep.{Lockstep, attempt_at}
use not_so_simple_software_f.Store.Start.Laws.{start_attempt-Lockstep}
use not_so_simple_software_f.Store.Heartbeat.Laws.{heartbeat-Lockstep}
use not_so_simple_software_f.Store.Stages.Laws.{start_stage-Lockstep, complete_stage-Lockstep}
use not_so_simple_software_f.Store.Complete.Laws.{complete_attempt-Lockstep}
use not_so_simple_software_f.Store.Sweep.Laws.{sweep_expired-Lockstep}
use not_so_simple_software_f.Store.Steps.{
  Moves, stays, starts, ends, Step, starting, beating, stage_starting, stage_completing, completing,
  appending, sweeping, Reach, here, next,
}
use not_so_simple_software_f.Store.Steps.Touch.{touch_terminal, touch-Moves}
use not_so_simple_software_f.Store.Steps.Swept.{sweep_expired-Touches}
use not_so_simple_software_f.Store.Steps.Written.{
  Touches, untouched, touched, same_attempts, start_attempt-Touches, heartbeat-Touches,
  start_stage-Touches, complete_stage-Touches, complete_attempt-Touches,
}

module _ {encode : Models → String} {json : Json} {db : Db} where
  Step-Lockstep : {after : Db} → Step encode json db after → Lockstep db → Lockstep after
  Step-Lockstep (starting env id input out h) lock =
      start_attempt-Lockstep env id input db out lock h
  Step-Lockstep (beating env id token out h) lock = heartbeat-Lockstep env id token db out lock h
  Step-Lockstep (stage_starting env id position input out h) lock =
      start_stage-Lockstep env id position input db out lock h
  Step-Lockstep (stage_completing env id position input out h) lock =
      complete_stage-Lockstep encode env id position input db out lock h
  Step-Lockstep (completing env id input out h) lock =
      complete_attempt-Lockstep encode env id input db out lock h
  Step-Lockstep (appending env id input after h) lock =
      append_events-Lockstep json env id input db after lock h
  Step-Lockstep (sweeping env) lock = sweep_expired-Lockstep env db lock

  Step-Touches : {after : Db} → Step encode json db after → Touches db.attempts after.attempts
  Step-Touches (starting env id input out h) = start_attempt-Touches env id input db out h
  Step-Touches (beating env id token out h) = heartbeat-Touches env id token db out h
  Step-Touches (stage_starting env id position input out h) =
      start_stage-Touches env id position input db out h
  Step-Touches (stage_completing env id position input out h) =
      complete_stage-Touches encode env id position input db out h
  Step-Touches (completing env id input out h) =
      complete_attempt-Touches encode env id input db out h
  Step-Touches (appending env id input after h) =
      same_attempts (append_events-attempts json env id input db after h)
  Step-Touches (sweeping env) = sweep_expired-Touches env db

-- Over any history of starts, heartbeats, starts and completions of stages, completions, appended
-- events and sweeps that succeed, an active attempt has an execution and a session in
-- its own state, no two active attempts share an execution, and no two executions share a session,
-- provided that all this held at the start.
pub Reach-Lockstep :
    (encode : Models → String) (json : Json) (db after : Db)
    → Lockstep db
    → Reach encode json db after
    → Lockstep after
Reach-Lockstep encode json db after lock here = lock
Reach-Lockstep encode json db after lock (next {mid} r s) =
    Step-Lockstep s (Reach-Lockstep encode json db mid lock r)

Touches-terminal :
    {before after : List Attempt} (i : ℕ) (a : Attempt)
    → Touches before after
    → attempt_at before i ≡ some a
    → is_terminal a.state ≡ true
    → attempt_at after i ≡ some a
Touches-terminal i a untouched h t = h
Touches-terminal i a (touched {mid} {after} ts touch) h t =
    touch_terminal mid after touch i a (Touches-terminal i a ts h t) t

-- A terminal attempt is final for the transactions that drive attempts: no later history of starts,
-- heartbeats, starts and completions of stages, completions, appended events and sweeps changes any column
-- that the row of an attempt has here. Its capacity_acknowledged, which the registration of a Worker sets, is not
-- one of them.
pub Reach-terminal :
    (encode : Models → String) (json : Json) (db after : Db) (i : ℕ) (a : Attempt)
    → attempt_of db i ≡ some a
    → is_terminal a.state ≡ true
    → Reach encode json db after
    → attempt_of after i ≡ some a
Reach-terminal encode json db after i a h t here = h
Reach-terminal encode json db after i a h t (next {mid} r s) =
    Touches-terminal i a (Step-Touches s) (Reach-terminal encode json db mid i a h t r) t

Moves-trans : {s t u : AttemptState} → Moves s t → Moves t u → Moves s u
Moves-trans stays m = m
Moves-trans starts stays = starts
Moves-trans starts (ends active terminal) = ends refl terminal
Moves-trans (ends active terminal) stays = ends active terminal
Moves-trans {s} (ends {t = t} active terminal) (ends still later) = ends active later
Moves-trans (ends active terminal) starts = cc

Touches-Moves :
    {before after : List Attempt} (i : ℕ) (a : Attempt)
    → Touches before after
    → attempt_at before i ≡ some a
    → (b : Attempt) × (attempt_at after i ≡ some b) × Moves a.state b.state
Touches-Moves i a untouched h = (a, h, stays)
Touches-Moves i a (touched {mid} {after} ts touch) h =
    let (b, hb, m) = Touches-Moves i a ts h in
    let (c, hc, n) = touch-Moves mid after touch i b hb in (c, hc, Moves-trans m n)

-- Over any history of starts, heartbeats, starts and completions of stages, completions, appended
-- events and sweeps that succeed, an attempt stays in the table, and its state has stayed
-- what it was, has gone from preparing to running, or has gone from active to terminal: it never goes
-- back.
pub Reach-Moves :
    (encode : Models → String) (json : Json) (db after : Db) (i : ℕ) (a : Attempt)
    → attempt_of db i ≡ some a
    → Reach encode json db after
    → (b : Attempt) × (attempt_of after i ≡ some b) × Moves a.state b.state
Reach-Moves encode json db after i a h here = (a, h, stays)
Reach-Moves encode json db after i a h (next {mid} r s) =
    let (b, hb, m) = Reach-Moves encode json db mid i a h r in
    let (c, hc, n) = Touches-Moves i b (Step-Touches s) hb in (c, hc, Moves-trans m n)
