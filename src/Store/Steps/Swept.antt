-- ===== src/Store/Steps/Swept.antt =====
-- The sweep touches the attempts one at a time: one for each lease that ran out.
use not_so_simple_software_f.Prelude.{
  ℕ, ◌==◌, ◌≡◌, refl, true, ◌&&◌, inl, inr, List, [], ◌∷◌, &&-left, &&-right, ==_iff, Bool-cases,
}
use not_so_simple_software_f.Service.{Result, ok, err}
use not_so_simple_software_f.Store.Rows.{Attempt, Db, Env}
use not_so_simple_software_f.Store.Lease.{LeaseState, load_lease, update_run_lifecycle}
use not_so_simple_software_f.Store.Lease.Laws.{load_lease-Loaded}
use not_so_simple_software_f.Store.Sweep.{
  is_swept, is_still_expired, lose_attempt, lose_rows, lose_loaded, sweep_one, sweep_all,
  sweep_expired, delete_empty_claims,
}
use not_so_simple_software_f.Store.Sweep.Laws.{still_expired, is_swept-active}
use not_so_simple_software_f.Store.Steps.{Moves, ends}
use not_so_simple_software_f.Store.Steps.Written.{Touches, Touch-once, untouched, touched}

lose_move :
    (env : Env) (db : Db) (a : Attempt)
    → is_swept env db a ≡ true
    → Moves a.state (lose_attempt env a).state
unfolding lose_attempt
lose_move env db a h = ends (is_swept-active env db a h) refl

lose_loaded-Touches :
    (env : Env) (id : ℕ) (loaded : Result LeaseState) (db : Db)
    → load_lease db id ≡ loaded
    → is_still_expired env db id ≡ true
    → Touches db.attempts (lose_loaded env id loaded db).attempts
unfolding lose_loaded update_run_lifecycle lose_rows
lose_loaded-Touches env id (ok lease) db read expired =
    let l = load_lease-Loaded db id lease read in
    Touch-once (record {
      id = id;
      attempt = l.attempt;
      has_attempt = l.has_attempt;
      active = is_swept-active env db l.attempt (still_expired env db id lease l expired);
      test = λ a. a.id == id && is_swept env db a;
      change = lose_attempt env;
      key = λ a. unfold lose_attempt in refl;
      only = λ a t. (==_iff a.id id).0 (&&-left (a.id == id) (is_swept env db a) t);
      moves = λ a t. lose_move env db a (&&-right (a.id == id) (is_swept env db a) t);
      written = refl;
    })
lose_loaded-Touches env id (err e) db read expired = untouched

join :
    {before mid after : List Attempt}
    → Touches before mid
    → Touches mid after
    → Touches before after
join h untouched = h
join h (touched k t) = touched (join h k) t

sweep_one-Touches :
    (env : Env) (value : Attempt) (db : Db) → Touches db.attempts (sweep_one env value db).attempts
unfolding sweep_one
sweep_one-Touches env value db = elim (Bool-cases (is_still_expired env db value.id)) [
  | inl yes_expired ↦
      rw yes_expired (lose_loaded-Touches env value.id (load_lease db value.id) db refl yes_expired)
  | inr not_expired ↦ rw not_expired untouched
]

sweep_all-Touches :
    (env : Env) (values : List Attempt) (db : Db)
    → Touches db.attempts (sweep_all env values db).attempts
unfolding sweep_all
sweep_all-Touches env [] db = untouched
sweep_all-Touches env (value ∷ rest) db =
    join (sweep_one-Touches env value db) (sweep_all-Touches env rest (sweep_one env value db))

pub sweep_expired-Touches :
    (env : Env) (db : Db) → Touches db.attempts (sweep_expired env db).0.attempts
unfolding sweep_expired delete_empty_claims
sweep_expired-Touches env db = sweep_all-Touches env _ _
