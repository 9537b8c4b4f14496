-- ===== src/Planning/Edits.antt =====
-- The edits of a checkpoint, each one transaction (planningTransitions, planningTransitionAllowed,
-- planningProjectExists, planningCheckpointStatus).
use not_so_simple_software_f.Prelude.{
  ℕ, Bool, true, false, not, ◌&&◌, String, Option, none, some, List, [], ◌∷◌, ◌++◌, ℤ, ◌==◌,
  if◌then◌else◌,
}
use not_so_simple_software_f.Table.{find_row, update_where, exists_where}
use not_so_simple_software_f.Service.{
  ServiceError, Result, ok, invalid, conflict, or_not_found, or_refuse, refuse_if, ◌>>=◌, ◌>>◌,
}
use not_so_simple_software_f.Planning.Keys.{
  Slug, same_text, lowered, trim_space, valid_checkpoint_key, bounded_text,
}

-- PlanningStatuses
pub data PlanningStatus : Type 0 where
  planned review fog frozen built : PlanningStatus

-- A status after lower-casing, or one that planningTransitions does not know.
unfoldable pub status_of : List ℕ → Option PlanningStatus
status_of text =
    if same_text text (lowered "planned")
    then some planned
    else if same_text text (lowered "review")
    then some review
    else if same_text text (lowered "fog")
    then some fog
    else if same_text text (lowered "frozen")
    then some frozen
    else if same_text text (lowered "built")
    then some built
    else none

-- planningTransitions
abbrev pub transition_allowed : PlanningStatus → PlanningStatus → Bool
transition_allowed planned review = true
transition_allowed review fog = true
transition_allowed review frozen = true
transition_allowed fog frozen = true
transition_allowed frozen built = true
transition_allowed _ _ = false

abbrev pub is_frozen : PlanningStatus → Bool
is_frozen frozen = true
is_frozen _ = false

-- status IN ('frozen', 'built')
abbrev pub is_settled : PlanningStatus → Bool
is_settled frozen = true
is_settled built = true
is_settled _ = false

pub record PlanningCheckpoint : Type 0 where
  pub project : Slug
  pub number : ℕ
  pub title : String
  pub summary : String
  pub status : PlanningStatus
  pub body : String
  pub answers : String
  pub frozen_at : Option ℕ
  pub created_at : ℕ
  pub updated_at : ℕ

-- The rows that these edits read or write.
pub record Plans : Type 0 where
  pub projects : List Slug
  pub checkpoints : List PlanningCheckpoint

abbrev pub at_key : Slug → ℕ → PlanningCheckpoint → Bool
at_key project number c = same_text c.project project && c.number == number

abbrev pub checkpoint_of : Plans → Slug → ℕ → Option PlanningCheckpoint
checkpoint_of plans project number = find_row (at_key project number) plans.checkpoints

abbrev pub settled_at : Option PlanningCheckpoint → Bool
settled_at none = false
settled_at (some c) = is_settled c.status

pub record SavePlanningCheckpointRequest : Type 0 where
  pub title : String
  pub summary : String
  pub body : String

-- INSERT ... ON CONFLICT DO UPDATE.
unfoldable pub upsert_row :
    ℕ → Slug → ℕ → SavePlanningCheckpointRequest → Option PlanningCheckpoint → Plans → Plans
upsert_row now project number text none plans = record plans {
  checkpoints =
      plans.checkpoints
      ++ record {
        project = project;
        number = number;
        title = text.title;
        summary = text.summary;
        status = planned;
        body = text.body;
        answers = "";
        frozen_at = none;
        created_at = now;
        updated_at = now;
      }
        ∷ [];
}
upsert_row now project number text (some found) plans = record plans {
  checkpoints =
      update_where (at_key project number)
        (λ c. record c {
          title = text.title;
          summary = text.summary;
          body = text.body;
          updated_at = now;
        })
        plans.checkpoints;
}

abbrev pub project_not_found : ServiceError
project_not_found = record { code = "planning_project_not_found"; status = 404 }

unfoldable pub upsert_planning_checkpoint :
    ℕ → String → ℤ → SavePlanningCheckpointRequest → Plans → Result Plans
upsert_planning_checkpoint now project_text number_text input plans = do
  (project, number) ← valid_checkpoint_key project_text number_text
  title ← bounded_text input.title 200 "invalid_planning_title"
  summary ← bounded_text input.summary 240 "invalid_planning_summary"
  body ← bounded_text input.body 131072 "invalid_planning_body"
  refuse_if (not (exists_where (λ p. same_text p project) plans.projects)) project_not_found
  refuse_if (settled_at (checkpoint_of plans project number))
      (conflict "planning_checkpoint_frozen")
  ok (
      upsert_row now project number (record { title = title; summary = summary; body = body })
        (checkpoint_of plans project number) plans)

unfoldable pub answer_rows : ℕ → Slug → ℕ → String → Plans → Plans
answer_rows now project number answers plans = record plans {
  checkpoints =
      update_where (at_key project number) (λ c. record c { answers = answers; updated_at = now })
        plans.checkpoints;
}

-- RowsAffected is 0 where no row has the key.
unfoldable pub save_planning_answers : ℕ → String → ℤ → String → Plans → Result Plans
save_planning_answers now project_text number_text input plans = do
  (project, number) ← valid_checkpoint_key project_text number_text
  answers ← bounded_text input 65536 "invalid_planning_answers"
  found ← or_not_found (checkpoint_of plans project number)
  ok (answer_rows now project number answers plans)

unfoldable pub transition_rows : ℕ → Slug → ℕ → PlanningStatus → Plans → Plans
transition_rows now project number to plans = record plans {
  checkpoints =
      update_where (at_key project number)
        (λ c. record c {
          status = to;
          frozen_at = if is_frozen to then some now else c.frozen_at;
          updated_at = now;
        })
        plans.checkpoints;
}

unfoldable pub transition_planning_checkpoint : ℕ → String → ℤ → String → Plans → Result Plans
transition_planning_checkpoint now project_text number_text status plans = do
  (project, number) ← valid_checkpoint_key project_text number_text
  to ← or_refuse (status_of (lowered (trim_space status))) (invalid "invalid_planning_status")
  current ← or_not_found (checkpoint_of plans project number)
  refuse_if (not (transition_allowed current.status to))
      (conflict "planning_transition_not_allowed")
  ok (transition_rows now project number to plans)
