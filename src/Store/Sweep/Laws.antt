-- ===== src/Store/Sweep/Laws.antt =====
-- The sweep of expired leases keeps the lockstep, and what it makes of one attempt.
use not_so_simple_software_f.Prelude.{
  ℕ, ◌≡◌, refl, sym, ap, true, inl, inr, List, [], ◌∷◌, Option, none, some, arith, &&-left, ◌∙◌,
  Bool-cases,
}
use not_so_simple_software_f.Service.{Result, ok, err}
use not_so_simple_software_f.Store.States.{is_active}
use not_so_simple_software_f.Store.Rows.{Attempt, Session, WorkUpdate, Db, Env}
use not_so_simple_software_f.Store.Lease.{LeaseState, load_lease, update_run_lifecycle}
use not_so_simple_software_f.Store.Lease.Laws.{Loaded, Loaded-keys, load_lease-Loaded}
use not_so_simple_software_f.Store.Lockstep.{Lockstep}
use not_so_simple_software_f.Store.Lockstep.Keep.{Lockstep-keep}
use not_so_simple_software_f.Store.Lockstep.Lease.{Loaded-Held}
use not_so_simple_software_f.Store.Sweep.{
  is_expired, row_is_swept, is_swept, is_still_expired, lose_session, lose_attempt, lose_rows,
  lose_loaded, sweep_one, sweep_all, sweep_expired, delete_empty_claims,
}

id-lose_session :
    (env : Env) (outcome : Option WorkUpdate) (s : Session) → (lose_session env outcome s).id ≡ s.id
unfolding lose_session
id-lose_session env none s = refl
id-lose_session env (some u) s = ground arith

-- The attempt that is still expired, as its lease was read.
pub still_expired :
    (env : Env) (db : Db) (id : ℕ) (lease : LeaseState) (l : Loaded db id lease)
    → is_still_expired env db id ≡ true
    → is_swept env db l.attempt ≡ true
still_expired env db id lease l h = sym (ap (row_is_swept env db) l.has_attempt) ∙ h

-- An attempt that is swept was active.
pub is_swept-active :
    (env : Env) (db : Db) (a : Attempt) → is_swept env db a ≡ true → is_active a.state ≡ true
is_swept-active env db a h = &&-left (is_active a.state) _ (&&-left (is_expired env a) _ h)

lose_rows-Lockstep :
    (env : Env) (id : ℕ) (lease : LeaseState) (db : Db)
    → Lockstep db
    → (l : Loaded db id lease) → is_swept env db l.attempt ≡ true
    → Lockstep (lose_rows env id lease db)
unfolding lose_rows lose_attempt
lose_rows-Lockstep env id lease db lock loaded swept =
    Lockstep-keep db.attempts db.executions db.sessions id lease.execution_id lease.session_id _ _ _
      _ _ _ lock
      (Loaded-Held db id lease lock loaded
        (ap is_active loaded.attempt_state ∙ is_swept-active env db loaded.attempt swept))
      (record {
        attempt_key = λ a. refl;
        attempt_ref = λ a. refl;
        attempt_only = λ a h. ground arith;
        execution_key = λ e. refl;
        execution_ref = λ e. refl;
        execution_only = λ e h. ground arith;
        session_key = λ s. id-lose_session env _ s;
        session_only = λ s h. ground arith;
      })
      (λ still. absurd (ground (arith, swept, (Loaded-keys db id lease loaded).0)))

lose_loaded-Lockstep :
    (env : Env) (id : ℕ) (loaded : Result LeaseState) (db : Db)
    → Lockstep db
    → load_lease db id ≡ loaded
    → is_still_expired env db id ≡ true
    → Lockstep (lose_loaded env id loaded db)
unfolding lose_loaded update_run_lifecycle
lose_loaded-Lockstep env id (ok lease) db lock read expired =
    let l = load_lease-Loaded db id lease read in
    lose_rows-Lockstep env id lease db lock l (still_expired env db id lease l expired)
lose_loaded-Lockstep env id (err e) db lock read expired = lock

sweep_one-Lockstep :
    (env : Env) (value : Attempt) (db : Db) → Lockstep db → Lockstep (sweep_one env value db)
unfolding sweep_one
sweep_one-Lockstep env value db lock = elim (Bool-cases (is_still_expired env db value.id)) [
  | inl yes_expired ↦
      rw yes_expired
        (lose_loaded-Lockstep env value.id (load_lease db value.id) db lock (refl) yes_expired)
  | inr not_expired ↦ rw not_expired lock
]

sweep_all-Lockstep :
    (env : Env) (values : List Attempt) (db : Db) → Lockstep db → Lockstep (sweep_all env values db)
unfolding sweep_all
sweep_all-Lockstep env [] db lock = lock
sweep_all-Lockstep env (value ∷ rest) db lock =
    sweep_all-Lockstep env rest (sweep_one env value db) (sweep_one-Lockstep env value db lock)

-- A sweep keeps every active attempt in step with its execution and its session.
pub sweep_expired-Lockstep : (env : Env) (db : Db) → Lockstep db → Lockstep (sweep_expired env db).0
unfolding sweep_expired delete_empty_claims
sweep_expired-Lockstep env db lock = sweep_all-Lockstep env _ _ lock
