-- ===== src/Planning/Insert/Examples.antt =====
-- A checkpoint that is inserted before another.
use not_so_simple_software_f.Prelude.{ℕ, ◌≡◌, refl, some, none, List, [], ◌∷◌, pos}
use not_so_simple_software_f.Service.{ok}
use not_so_simple_software_f.Store.Events.{is_space}
use not_so_simple_software_f.Planning.Keys.{
  Slug, lowered, valid_slug, bounded_text, trim_space, trim_left, trim_right, drop_space,
  matches_slug,
}
use not_so_simple_software_f.Planning.Edits.{planned, frozen, PlanningCheckpoint, checkpoint_of}
use not_so_simple_software_f.Planning.Split.{PlanningStone, titled}
use not_so_simple_software_f.Planning.Shift.{move_at, shift_down}
use not_so_simple_software_f.Planning.Insert.{
  Board, Piece, InsertPlanningCheckpointRequest, insert_rows, insert_planning_checkpoint,
}
use not_so_simple_software_f.Planning.Insert.Lifted.{Lifted, insert_planning_checkpoint-Lifted}
use not_so_simple_software_f.Planning.Insert.Settled.{insert_planning_checkpoint-settled}

abbrev alpha : Slug
alpha = 97 ∷ []

abbrev first : PlanningCheckpoint
first = record {
  project = alpha;
  number = 1;
  title = "t";
  summary = "";
  status = frozen;
  body = "";
  answers = "";
  frozen_at = none;
  created_at = 1;
  updated_at = 1;
}

abbrev second : PlanningCheckpoint
second = record first { number = 2; status = planned }

abbrev third : PlanningCheckpoint
third = record second { number = 3 }

abbrev rock : PlanningStone
rock = record { id = 114 ∷ []; ordinal = 1; title = titled "Rock"; statement = "" }

abbrev stone : ℕ → Piece PlanningStone
stone n = record { project = alpha; number = n; content = rock }

abbrev board_with : List PlanningCheckpoint → List (Piece PlanningStone) → Board
board_with checkpoints stones = record {
  plans = record { projects = alpha ∷ []; checkpoints = checkpoints };
  routes = [];
  stones = stones;
  pebbles = [];
  sessions = [];
}

abbrev board : Board
board = board_with (first ∷ second ∷ []) (stone 1 ∷ stone 2 ∷ [])

abbrev request : InsertPlanningCheckpointRequest
request = record { title = "t"; summary = ""; route = "r" }

abbrev added : PlanningCheckpoint
added = record second { created_at = 9; updated_at = 9 }

abbrev board_after : Board
board_after = board_with (first ∷ third ∷ added ∷ []) (stone 1 ∷ stone 3 ∷ [])

inserted : insert_planning_checkpoint 9 "A" (pos 2) request board ≡ ok board_after
unfolding insert_planning_checkpoint valid_slug bounded_text trim_space trim_left trim_right
    drop_space is_space matches_slug lowered insert_rows shift_down move_at
inserted = refl

insert_planning_checkpoint-Lifted_example :
    (project : Slug) × (number : ℕ) × (pos 2 ≡ pos number)
    × Lifted 9 board board_after project number
insert_planning_checkpoint-Lifted_example =
    insert_planning_checkpoint-Lifted 9 "A" (pos 2) request board board_after (refl, (refl, tt)) tt
      inserted

insert_planning_checkpoint-settled_example : checkpoint_of board_after.plans alpha 1 ≡ some first
insert_planning_checkpoint-settled_example =
    insert_planning_checkpoint-settled 9 "A" (pos 2) request board board_after alpha 1 first refl
      refl inserted
