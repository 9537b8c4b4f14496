-- ===== src/Store/Heartbeat/Laws.antt =====
-- A heartbeat keeps the lockstep, and extends the lease of its owner alone.
use not_so_simple_software_f.Prelude.{ℕ, ◌+◌, ◌≡◌, refl, sym, ap, subst, String}
use not_so_simple_software_f.Service.{ok}
use not_so_simple_software_f.Service.Laws.{>>=-eq-ok, >>-eq-ok, ok-injective}
use not_so_simple_software_f.Store.Rows.{Db, Env}
use not_so_simple_software_f.Store.Lease.{
  LeaseState, load_lease, verify_active_lease, lease_duration,
}
use not_so_simple_software_f.Store.Lease.Laws.{
  Holds, Loaded, verify_active_lease-Holds, load_lease-Loaded,
}
use not_so_simple_software_f.Store.Lockstep.{Lockstep}
use not_so_simple_software_f.Store.Lockstep.Same.{Lockstep-attempts}
use not_so_simple_software_f.Store.Heartbeat.{HeartbeatResponse, heartbeat, extend_rows}

-- The parts of a heartbeat that succeeded.
pub record Beaten (env : Env) (id : ℕ) (token : String) (db : Db) (out : Db × HeartbeatResponse)
    : Type 0 where
  pub lease : LeaseState
  pub loaded : Loaded db id lease
  pub holds : Holds env lease token
  pub after : out.0 ≡ extend_rows env id db
  pub expires : out.1.lease_expires_at ≡ env.now + lease_duration
  pub cancels : out.1.cancellation_requested ≡ lease.cancel

pub heartbeat-Beaten :
    (env : Env) (id : ℕ) (token : String) (db : Db) (out : Db × HeartbeatResponse)
    → heartbeat env id token db ≡ ok out
    → Beaten env id token db out
unfolding heartbeat
heartbeat-Beaten env id token db out h =
    let (lease, hl, h1) = >>=-eq-ok (load_lease db id) _ h in
    let (hv, h2) = >>-eq-ok (verify_active_lease env lease token) _ h1 in
    record {
      lease = lease;
      loaded = load_lease-Loaded db id lease hl;
      holds = verify_active_lease-Holds env lease token hv;
      after = sym (ap (λ p. p.0) (ok-injective h2));
      expires = sym (ap (λ p. p.1.lease_expires_at) (ok-injective h2));
      cancels = sym (ap (λ p. p.1.cancellation_requested) (ok-injective h2));
    }

-- A heartbeat moves no state, so it keeps the lockstep.
pub heartbeat-Lockstep :
    (env : Env) (id : ℕ) (token : String) (db : Db) (out : Db × HeartbeatResponse)
    → Lockstep db
    → heartbeat env id token db ≡ ok out
    → Lockstep out.0
unfolding extend_rows
heartbeat-Lockstep env id token db out lock h =
    subst Lockstep (sym (heartbeat-Beaten env id token db out h).after)
      (Lockstep-attempts _ _ (λ a. refl) (λ a. refl) (λ a. refl) lock)
