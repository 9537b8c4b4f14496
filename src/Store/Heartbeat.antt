-- ===== src/Store/Heartbeat.antt =====
-- Heartbeat (factory/internal/controlplane/state.go): an attempt's lease is extended.
pub mod Laws
use not_so_simple_software_f.Prelude.{ℕ, ◌+◌, Bool, String, ◌==◌}
use not_so_simple_software_f.Table.{update_where}
use not_so_simple_software_f.Service.{Result, ok, ◌>>=◌, ◌>>◌}
use not_so_simple_software_f.Store.Rows.{Attempt, Db, Env}
use not_so_simple_software_f.Store.Lease.{load_lease, verify_active_lease, lease_duration}

pub record HeartbeatResponse : Type 0 where
  pub lease_expires_at : ℕ
  pub cancellation_requested : Bool

unfoldable pub extend_rows : Env → ℕ → Db → Db
extend_rows env id db = record db {
  attempts =
      update_where (λ a. a.id == id) (λ a. record a { lease_expires_at = env.now + lease_duration })
        db.attempts;
}

unfoldable pub heartbeat : Env → ℕ → String → Db → Result (Db × HeartbeatResponse)
unfolding extend_rows
heartbeat env id token db = do
  lease ← load_lease db id
  verify_active_lease env lease token
  let expiry = env.now + lease_duration
  ok (
    extend_rows env id db,
    record { lease_expires_at = expiry; cancellation_requested = lease.cancel },
  )
