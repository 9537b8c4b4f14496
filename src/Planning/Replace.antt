-- ===== src/Planning/Replace.antt =====
-- The pebbles of a checkpoint: ReplacePlanningPebbles and MarkPlanningPebbleBuilt.
pub mod Recut
mod Examples
use not_so_simple_software_f.Prelude.{
  ℕ, Bool, true, false, not, ◌&&◌, ◌||◌, String, Option, none, some, List, [], ◌∷◌, ◌++◌, map, ◌==◌,
  ℤ, if◌then◌else◌,
}
use not_so_simple_software_f.Table.{select, update_where, exists_where}
use not_so_simple_software_f.Cron.Text.{is_empty}
use not_so_simple_software_f.Service.{
  Result, ok, invalid, conflict, err_not_found, or_not_found, refuse_if, ◌>>=◌, ◌>>◌,
}
use not_so_simple_software_f.Planning.Keys.{
  Slug, same_text, lowered, trim_space, valid_checkpoint_key, bounded_text,
}
use not_so_simple_software_f.Planning.Edits.{is_frozen, at_key, checkpoint_of}
use not_so_simple_software_f.Planning.Split.{
  PlanningStone, PlanningPebble, has_slug, SavePlanningPebblesRequest, Split,
  normalize_planning_split,
}
use not_so_simple_software_f.Planning.Insert.{Piece, Board}

-- WHERE project = ? AND number = ?
abbrev pub under : {A : Type 0} → Slug → ℕ → Piece A → Bool
under project number p = same_text p.project project && p.number == number

-- DELETE of what is under a checkpoint, and the new rows.
abbrev pub replaced : {A : Type 0} → Slug → ℕ → List A → List (Piece A) → List (Piece A)
replaced project number contents rows =
    select (λ p. not (under project number p)) rows
    ++ map (λ c. record { project = project; number = number; content = c }) contents

unfoldable pub replace_rows : ℕ → Slug → ℕ → Split → Board → Board
replace_rows now project number split board = record board {
  plans = record board.plans {
    checkpoints =
        update_where (at_key project number) (λ c. record c { updated_at = now })
          board.plans.checkpoints;
  };
  stones = replaced project number split.stones board.stones;
  pebbles = replaced project number split.pebbles board.pebbles;
}

unfoldable pub replace_planning_pebbles :
    ℕ → String → ℤ → SavePlanningPebblesRequest → Board → Result Board
replace_planning_pebbles now project_text number_text input board = do
  (project, number) ← valid_checkpoint_key project_text number_text
  split ← normalize_planning_split input
  current ← or_not_found (checkpoint_of board.plans project number)
  refuse_if (not (is_frozen current.status)) (conflict "planning_checkpoint_not_frozen")
  ok (replace_rows now project number split board)

abbrev pub built_at_ref : ℕ → String → Piece PlanningPebble → Piece PlanningPebble
built_at_ref now ref p = record p {
  content = record p.content { built_at = some now; built_ref = ref };
}

-- WHERE project = ? AND number = ? AND slug = ?
abbrev pub is_pebble : Slug → ℕ → Slug → Piece PlanningPebble → Bool
is_pebble project number slug p = under project number p && has_slug slug p.content

unfoldable pub mark_planning_pebble_built : ℕ → String → ℤ → String → String → Board → Result Board
mark_planning_pebble_built now project_text number_text slug_text ref_text board = do
  (project, number) ← valid_checkpoint_key project_text number_text
  refuse_if (is_empty (trim_space ref_text)) (invalid "invalid_planning_built_ref")
  ref ← bounded_text ref_text 512 "invalid_planning_built_ref"
  let slug = lowered (trim_space slug_text)
  refuse_if (not (exists_where (is_pebble project number slug) board.pebbles)) err_not_found
  ok (record board {
    pebbles = update_where (is_pebble project number slug) (built_at_ref now ref) board.pebbles;
  })
