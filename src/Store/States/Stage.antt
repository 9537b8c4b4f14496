-- ===== src/Store/States/Stage.antt =====
-- Tests on session_stages.state, as the WHERE clauses of the control plane write them.
use not_so_simple_software_f.Prelude.{Bool, true, false, ◌||◌}
use not_so_simple_software_f.Store.States.{StageRunState}

abbrev pub is_running : StageRunState → Bool
is_running StageRunState.running = true
is_running _ = false

abbrev pub is_pending : StageRunState → Bool
is_pending StageRunState.pending = true
is_pending _ = false

abbrev pub is_succeeded : StageRunState → Bool
is_succeeded StageRunState.succeeded = true
is_succeeded _ = false

-- state IN ('pending', 'running')
abbrev pub is_unfinished : StageRunState → Bool
is_unfinished s = is_pending s || is_running s
