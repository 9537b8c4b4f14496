-- ===== src/Store/States/Session.antt =====
-- Tests on sessions.state, as the WHERE clauses of the control plane write them.
use not_so_simple_software_f.Prelude.{Bool, true, false}
use not_so_simple_software_f.Store.States.{SessionState}

-- state = 'running'
abbrev pub is_running : SessionState → Bool
is_running SessionState.running = true
is_running _ = false

-- state = 'preparing'
abbrev pub is_preparing : SessionState → Bool
is_preparing SessionState.preparing = true
is_preparing _ = false

-- state IN ('preparing', 'running')
abbrev pub is_active : SessionState → Bool
is_active SessionState.preparing = true
is_active SessionState.running = true
is_active _ = false

-- state IN ('draft','blocked','queued','preparing','running','needs-input')
abbrev pub is_open : SessionState → Bool
is_open SessionState.draft = true
is_open SessionState.blocked = true
is_open SessionState.queued = true
is_open SessionState.preparing = true
is_open SessionState.running = true
is_open SessionState.needs_input = true
is_open _ = false
