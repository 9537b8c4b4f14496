-- ===== src/Planning/Examples.antt =====
-- A checkpoint that was frozen, and edits of it.
use not_so_simple_software_f.Prelude.{ℕ, ◌≡◌, refl, some, List, [], ◌∷◌, pos}
use not_so_simple_software_f.Service.{ok, err, conflict}
use not_so_simple_software_f.Planning.Keys.{
  lowered, trim_space, trim_left, trim_right, drop_space, matches_slug, valid_slug,
  valid_checkpoint_key, bounded_text,
}
use not_so_simple_software_f.Planning.Edits.{
  frozen, built, PlanningCheckpoint, Plans, checkpoint_of, status_of, transition_rows,
  transition_planning_checkpoint, upsert_planning_checkpoint,
}
use not_so_simple_software_f.Planning.Frozen.{Kept}
use not_so_simple_software_f.Planning.History.{Edit, saving, moving, run, run-Kept}
use not_so_simple_software_f.Store.Events.{is_space}

-- "ab"
abbrev slug : List ℕ
slug = b'a' ∷ b'b' ∷ []

abbrev checkpoint : PlanningCheckpoint
checkpoint = record {
  project = slug;
  number = 3;
  title = "Freeze";
  summary = "";
  status = frozen;
  body = "The plan.";
  answers = "";
  frozen_at = some 500;
  created_at = 100;
  updated_at = 500;
}

abbrev plans : Plans
plans = record { projects = slug ∷ []; checkpoints = checkpoint ∷ [] }

becomes_built :
    transition_planning_checkpoint 900 " AB " (pos 3) "Built" plans
    ≡ ok
        (record plans { checkpoints = record checkpoint { status = built; updated_at = 900 } ∷ [] })
unfolding transition_planning_checkpoint transition_rows valid_checkpoint_key valid_slug
    matches_slug status_of lowered trim_space trim_left trim_right drop_space is_space
becomes_built = refl

is_not_saved :
    upsert_planning_checkpoint 900 "ab"
      (pos 3)
      (record { title = "Other"; summary = ""; body = "" })
      plans
    ≡ err (conflict "planning_checkpoint_frozen")
unfolding upsert_planning_checkpoint valid_checkpoint_key valid_slug bounded_text matches_slug
    lowered trim_space trim_left trim_right drop_space is_space
is_not_saved = refl

abbrev edits : List (ℕ × Edit)
edits =
    (600, saving "ab" (pos 3) (record { title = "Other"; summary = ""; body = "" }))
    ∷ (900, moving "ab" (pos 3) "built")
    ∷ []

run-Kept_example :
    (after : PlanningCheckpoint) × (checkpoint_of (run edits plans) slug 3 ≡ some after)
    × Kept checkpoint after
run-Kept_example = run-Kept edits plans slug 3 checkpoint refl refl
