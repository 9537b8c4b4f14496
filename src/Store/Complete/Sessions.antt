-- ===== src/Store/Complete/Sessions.antt =====
-- The session that a completed attempt leaves (the five UPDATE sessions of CompleteAttempt in
-- factory/internal/controlplane/state.go).
use not_so_simple_software_f.Prelude.{
  ℕ, ◌≡◌, refl, arith, Bool, true, false, ◌&&◌, String, Option, none, some, List, ◌==◌, str_eq,
  if◌then◌else◌,
}
use not_so_simple_software_f.Table.{update_where}
use not_so_simple_software_f.Store.States.{SessionState, WorkUpdateStatus, owner_none}
use not_so_simple_software_f.Store.States.Session
use not_so_simple_software_f.Store.Rows.{Session, WorkUpdate, Env}
use not_so_simple_software_f.Store.Lease.{null_string}
use not_so_simple_software_f.Store.Complete.Outcome.{Completion, is_success}

-- COALESCE(NULLIF(value, ''), column)
abbrev keep_if_empty : String → String → String
keep_if_empty value column = if str_eq value "" then column else value

abbrev pub is_needs_input : SessionState → Bool
is_needs_input SessionState.needs_input = true
is_needs_input _ = false

unfoldable pub asks : WorkUpdate → Completion → Session → Session
asks u c s = record s {
  state = SessionState.needs_input;
  terminal_at = none;
  result = none;
  failure_reason = none;
  terminal_message = c.terminal_message;
  question = u.message;
  checkpoint_sha = u.checkpoint_sha;
  pending_resume_sha = u.checkpoint_sha;
  checkpoint_published = u.checkpoint_published;
  answer = "";
  answered_by = "";
  execution_owner = owner_none;
}

unfoldable pub reports : Env → WorkUpdate → Completion → Session → Session
reports env u c s = record s {
  state = c.work_state;
  terminal_at = some env.now;
  result = none;
  failure_reason = null_string c.failure_reason;
  terminal_message = c.terminal_message;
  pull_request_url = keep_if_empty u.pull_request_url s.pull_request_url;
  pull_request_head_branch = keep_if_empty u.pull_request_head_branch s.pull_request_head_branch;
  pull_request_head_sha = keep_if_empty u.pull_request_head_sha s.pull_request_head_sha;
  execution_owner = owner_none;
}

-- The last of the five, which the two before it extend by the evidence of the report.
unfoldable pub stops : Env → Completion → Session → Session
stops env c s = record s {
  state = c.work_state;
  terminal_at = some env.now;
  result = null_string c.result;
  failure_reason = null_string c.failure_reason;
  terminal_message = c.terminal_message;
  execution_owner = owner_none;
}

unfoldable pub stops_with_evidence :
    Env → WorkUpdate → Completion → WorkUpdateStatus → Session → Session
unfolding stops
stops_with_evidence env u c WorkUpdateStatus.needs_input s = record (stops env c s) {
  checkpoint_sha = u.checkpoint_sha;
  pending_resume_sha = u.checkpoint_sha;
  checkpoint_published = u.checkpoint_published;
}
stops_with_evidence env u c WorkUpdateStatus.ready s = record (stops env c s) {
  pull_request_url = u.pull_request_url;
  pull_request_head_branch = u.pull_request_head_branch;
  pull_request_head_sha = u.pull_request_head_sha;
}
stops_with_evidence env u c _ s = stops env c s

-- `AND state = 'running'` in the first two, `AND state IN ('preparing', 'running')` in the others.
unfoldable pub may_finish : Completion → Option WorkUpdate → SessionState → Bool
may_finish c none state = Session.is_active state
may_finish c (some u) state =
    if is_needs_input c.work_state
    then Session.is_running state
    else if is_success c.state
    then Session.is_running state
    else Session.is_active state

unfoldable pub finished : Env → Completion → Option WorkUpdate → Session → Session
unfolding asks reports stops stops_with_evidence
finished env c none s = stops env c s
finished env c (some u) s =
    if is_needs_input c.work_state
    then asks u c s
    else if is_success c.state
    then reports env u c s
    else stops_with_evidence env u c u.status s

unfoldable pub finish_session_rows : Env → ℕ → Completion → List Session → List Session
finish_session_rows env session_id c sessions =
    update_where (λ s. s.id == session_id && may_finish c c.outcome s.state)
      (finished env c c.outcome) sessions

-- The session keeps its identity.
pub id-finished :
    (env : Env) (c : Completion) (outcome : Option WorkUpdate) (s : Session)
    → (finished env c outcome s).id ≡ s.id
unfolding finished
id-finished env c none s = refl
id-finished env c (some u) s = ground arith

-- And its run.
pub run_id-finished :
    (env : Env) (c : Completion) (outcome : Option WorkUpdate) (s : Session)
    → (finished env c outcome s).run_id ≡ s.run_id
unfolding finished
run_id-finished env c none s = refl
run_id-finished env c (some u) s = ground arith
