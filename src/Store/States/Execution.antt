-- ===== src/Store/States/Execution.antt =====
-- Tests on executions.state, as the WHERE clauses of the control plane write them.
use not_so_simple_software_f.Prelude.{Bool, true, false}
use not_so_simple_software_f.Store.States.{ExecutionState}

-- state = 'running'
abbrev pub is_running : ExecutionState → Bool
is_running ExecutionState.running = true
is_running _ = false

-- state = 'preparing'
abbrev pub is_preparing : ExecutionState → Bool
is_preparing ExecutionState.preparing = true
is_preparing _ = false

-- state IN ('preparing', 'running')
abbrev pub is_active : ExecutionState → Bool
is_active ExecutionState.preparing = true
is_active ExecutionState.running = true
is_active _ = false
