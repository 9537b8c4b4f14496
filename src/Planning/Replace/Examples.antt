-- ===== src/Planning/Replace/Examples.antt =====
-- A frozen checkpoint that is cut into one stone and two pebbles.
use not_so_simple_software_f.Prelude.{◌≡◌, refl, some, none, [], ◌∷◌, pos, map}
use not_so_simple_software_f.Service.{ok}
use not_so_simple_software_f.Store.Events.{is_space}
use not_so_simple_software_f.Planning.Keys.{
  Slug, lowered, valid_slug, valid_checkpoint_key, bounded_text, trim_space, trim_left, trim_right,
  drop_space, matches_slug,
}
use not_so_simple_software_f.Planning.Edits.{frozen, PlanningCheckpoint}
use not_so_simple_software_f.Planning.Split.{
  PlanningPebble, SavePlanningPebblesRequest, Split, titled, named, valid_ordinal, normalize_stones,
  normalize_pebbles, place, sort_by, normalize_planning_split,
}
use not_so_simple_software_f.Planning.Split.Normal.{Normal, normalize_planning_split-Normal}
use not_so_simple_software_f.Planning.Insert.{Board}
use not_so_simple_software_f.Planning.Replace.{replace_rows, replace_planning_pebbles}
use not_so_simple_software_f.Planning.Replace.Recut.{Recut, replace_planning_pebbles-Recut}
use not_so_simple_software_f.Planning.Under.{AllUnder}
use not_so_simple_software_f.Planning.Pieces.{unedited, edited, replaces, Edits-AllUnder}

abbrev alpha : Slug
alpha = 97 ∷ []

abbrev plan : PlanningCheckpoint
plan = record {
  project = alpha;
  number = 1;
  title = "t";
  summary = "";
  status = frozen;
  body = "";
  answers = "";
  frozen_at = some 1;
  created_at = 1;
  updated_at = 1;
}

abbrev board : Board
board = record {
  plans = record { projects = alpha ∷ []; checkpoints = plan ∷ [] };
  routes = [];
  stones = [];
  pebbles = [];
  sessions = [];
}

-- The second pebble is placed first by its ordinal.
abbrev request : SavePlanningPebblesRequest
request = record {
  stones = record { id = "R"; ordinal = pos 0; title = "Rock"; statement = "" } ∷ [];
  pebbles =
      record { ordinal = pos 9; slug = "b"; title = ""; body = ""; stone_id = "r"; work_id = "" }
      ∷ record { ordinal = pos 2; slug = "c"; title = "C"; body = ""; stone_id = ""; work_id = "w" }
      ∷ [];
}

abbrev pebble_b : PlanningPebble
pebble_b = record {
  ordinal = 9;
  slug = 98 ∷ [];
  title = named (98 ∷ []);
  body = "";
  stone_id = some (114 ∷ []);
  work_id = none;
  built_at = none;
  built_ref = "";
}

abbrev pebble_c : PlanningPebble
pebble_c = record {
  ordinal = 2;
  slug = 99 ∷ [];
  title = titled "C";
  body = "";
  stone_id = none;
  work_id = some "w";
  built_at = none;
  built_ref = "";
}

abbrev split : Split
split = record {
  stones = record { id = 114 ∷ []; ordinal = 1; title = titled "Rock"; statement = "" } ∷ [];
  pebbles = pebble_c ∷ pebble_b ∷ [];
}

normalized : normalize_planning_split request ≡ ok split
unfolding normalize_planning_split normalize_stones normalize_pebbles valid_ordinal valid_slug
    bounded_text trim_space trim_left trim_right drop_space is_space matches_slug lowered sort_by
    place
normalized = refl

normalize_planning_split-Normal_example : Normal split
normalize_planning_split-Normal_example = normalize_planning_split-Normal request split normalized

abbrev board_after : Board
board_after = record {
  plans = record { projects = alpha ∷ []; checkpoints = record plan { updated_at = 5 } ∷ [] };
  routes = [];
  stones = map (λ s. record { project = alpha; number = 1; content = s }) split.stones;
  pebbles = map (λ p. record { project = alpha; number = 1; content = p }) split.pebbles;
  sessions = [];
}

cut : replace_planning_pebbles 5 "a" (pos 1) request board ≡ ok board_after
unfolding replace_planning_pebbles replace_rows valid_checkpoint_key normalize_planning_split
    normalize_stones normalize_pebbles valid_ordinal valid_slug bounded_text trim_space trim_left
    trim_right drop_space is_space matches_slug lowered sort_by place
cut = refl

replace_planning_pebbles-Recut_example : Recut "a" (pos 1) request board board_after
replace_planning_pebbles-Recut_example =
    replace_planning_pebbles-Recut 5 "a" (pos 1) request board board_after cut

board-AllUnder : AllUnder board
board-AllUnder = record { stones = tt; pebbles = tt }

Edits-AllUnder_example : AllUnder board_after
Edits-AllUnder_example =
    Edits-AllUnder board-AllUnder (edited unedited (replaces 5 "a" (pos 1) request cut))
