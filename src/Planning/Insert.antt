-- ===== src/Planning/Insert.antt =====
-- The insertion of a checkpoint into a route: InsertPlanningCheckpoint, planningHighestCheckpointNumber and
-- planningLowestBlockingCheckpoint.
pub mod Lifted
pub mod Settled
mod Examples
use not_so_simple_software_f.Prelude.{
  ℕ, ◌+◌, ◌-◌, Bool, true, false, not, ◌&&◌, ◌||◌, String, Option, none, some, List, [], ◌∷◌, ◌++◌,
  ltb, leb, ◌==◌, ℤ, pos, negsuc, if◌then◌else◌,
}
use not_so_simple_software_f.Table.{find_row, update_where, exists_where, select}
use not_so_simple_software_f.Service.{
  ServiceError, Result, ok, err, invalid, conflict, or_refuse, refuse_if, ◌>>=◌, ◌>>◌,
}
use not_so_simple_software_f.Planning.Keys.{Slug, same_text, valid_slug, bounded_text}
use not_so_simple_software_f.Planning.Edits.{
  PlanningStatus, planned, is_settled, PlanningCheckpoint, Plans, project_not_found,
}
use not_so_simple_software_f.Planning.Split.{PlanningStone, PlanningPebble}
use not_so_simple_software_f.Planning.Shift.{Numbered, move_at, shift_down}

-- A row of planning_stones or planning_pebbles: its checkpoint, and its other columns, less their times.
pub record Piece (A : Type 0) : Type 0 where
  pub project : Slug
  pub number : ℕ
  pub content : A

-- planning_project and planning_number of a session; a session that was not planned has none.
pub record PlannedSession : Type 0 where
  pub id : ℕ
  pub planning_project : Option Slug
  pub planning_number : ℕ

-- What else the row of a project holds.
pub record ProjectRoute : Type 0 where
  pub project : Slug
  pub route : String
  pub updated_at : ℕ

pub record Board : Type 0 where
  pub plans : Plans
  pub routes : List ProjectRoute
  pub stones : List (Piece PlanningStone)
  pub pebbles : List (Piece PlanningPebble)
  pub sessions : List PlannedSession

pub record InsertPlanningCheckpointRequest : Type 0 where
  pub title : String
  pub summary : String
  pub route : String

abbrev pub of_project : Slug → PlanningCheckpoint → Bool
of_project project c = same_text c.project project

-- MAX(number), or 0.
abbrev pub highest_number : Slug → List PlanningCheckpoint → ℕ
highest_number project [] = 0
highest_number project (c ∷ rest) =
    let later = highest_number project rest in
    if same_text c.project project && ltb later c.number then c.number else later

-- WHERE project = ? AND number >= ? AND status IN ('frozen', 'built')
abbrev pub blocks : Slug → ℕ → PlanningCheckpoint → Bool
blocks project number c = same_text c.project project && leb number c.number && is_settled c.status

abbrev pub checkpoints_of : Slug → Numbered PlanningCheckpoint
checkpoints_of project = record {
  mine = of_project project;
  number = λ c. c.number;
  moved = λ c. record c { number = c.number + 1 };
}

abbrev pub pieces_of : (A : Type 0) → Slug → Numbered (Piece A)
pieces_of A project = record {
  mine = λ p. same_text p.project project;
  number = λ p. p.number;
  moved = λ p. record p { number = p.number + 1 };
}

abbrev pub names_project : Slug → Option Slug → Bool
names_project project none = false
names_project project (some p) = same_text p project

abbrev pub new_checkpoint : ℕ → Slug → ℕ → InsertPlanningCheckpointRequest → PlanningCheckpoint
new_checkpoint now project number text = record {
  project = project;
  number = number;
  title = text.title;
  summary = text.summary;
  status = planned;
  body = "";
  answers = "";
  frozen_at = none;
  created_at = now;
  updated_at = now;
}

-- The loop over the three tables, `count` turns from the highest number down to `number`; then the
-- sessions, the new row, and the route.
unfoldable pub insert_rows : ℕ → Slug → ℕ → ℕ → InsertPlanningCheckpointRequest → Board → Board
insert_rows now project number count text board = record {
  plans = record board.plans {
    checkpoints =
        shift_down (checkpoints_of project) number count board.plans.checkpoints
        ++ new_checkpoint now project number text ∷ [];
  };
  routes =
      update_where (λ r. same_text r.project project)
        (λ r. record r { route = text.route; updated_at = now }) board.routes;
  stones = shift_down (pieces_of PlanningStone project) number count board.stones;
  pebbles = shift_down (pieces_of PlanningPebble project) number count board.pebbles;
  sessions =
      update_where (λ s. names_project project s.planning_project && leb number s.planning_number)
        (λ s. record s { planning_number = s.planning_number + 1 }) board.sessions;
}

-- A number from 1 to highest + 1.
abbrev pub insert_number : ℤ → ℕ → Result ℕ
insert_number (negsuc n) highest = err (invalid "planning_invalid_checkpoint_number")
insert_number (pos n) highest =
    if ltb n 1 || ltb (highest + 1) n
    then err (invalid "planning_invalid_checkpoint_number")
    else ok n

unfoldable pub insert_planning_checkpoint :
    ℕ → String → ℤ → InsertPlanningCheckpointRequest → Board → Result Board
insert_planning_checkpoint now project_text number_text input board = do
  project ← valid_slug project_text "invalid_planning_project"
  title ← bounded_text input.title 200 "invalid_planning_title"
  summary ← bounded_text input.summary 240 "invalid_planning_summary"
  route ← bounded_text input.route 65536 "invalid_planning_route"
  refuse_if (not (exists_where (λ p. same_text p project) board.plans.projects)) project_not_found
  let highest = highest_number project board.plans.checkpoints
  number ← insert_number number_text highest
  refuse_if (exists_where (blocks project number) board.plans.checkpoints)
      (conflict "planning_insert_not_clean")
  ok (
      insert_rows now project number (highest + 1 - number)
        (record { title = title; summary = summary; route = route }) board)
