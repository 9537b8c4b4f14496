-- ===== src/Planning/History.antt =====
-- The promise of freezing: whatever edits follow, the plan of a frozen checkpoint does not change.
use not_so_simple_software_f.Prelude.{ℕ, ◌≡◌, refl, true, String, ℤ, List, [], ◌∷◌, some}
use not_so_simple_software_f.Service.{Result, ok, err}
use not_so_simple_software_f.Planning.Keys.{Slug}
use not_so_simple_software_f.Planning.Edits.{
  is_settled, PlanningCheckpoint, Plans, checkpoint_of, SavePlanningCheckpointRequest,
  upsert_planning_checkpoint, save_planning_answers, transition_planning_checkpoint,
}
use not_so_simple_software_f.Planning.Frozen.{
  Kept, Kept-same, Kept-both, StillKept, upsert-Kept, answers-Kept, transition-Kept,
}

-- An edit as it arrives.
pub data Edit : Type 0 where
  saving : String → ℤ → SavePlanningCheckpointRequest → Edit
  answering : String → ℤ → String → Edit
  moving : String → ℤ → String → Edit

unfoldable pub attempt : ℕ → Edit → Plans → Result Plans
attempt now (saving project number input) plans =
    upsert_planning_checkpoint now project number input plans
attempt now (answering project number input) plans =
    save_planning_answers now project number input plans
attempt now (moving project number status) plans =
    transition_planning_checkpoint now project number status plans

-- A transaction that fails is rolled back.
abbrev pub settle : Result Plans → Plans → Plans
settle (err e) plans = plans
settle (ok after) plans = after

-- Edits one after the other, each at its time.
abbrev pub run : List (ℕ × Edit) → Plans → Plans
run [] plans = plans
run ((now, edit) ∷ rest) plans = run rest (settle (attempt now edit plans) plans)

attempt-Kept :
    (now : ℕ) (edit : Edit) (plans : Plans) (p : Slug) (n : ℕ) (c : PlanningCheckpoint)
    (r : Result Plans)
    → checkpoint_of plans p n ≡ some c
    → is_settled c.status ≡ true
    → attempt now edit plans ≡ r
    → StillKept (settle r plans) p n c
unfolding attempt
attempt-Kept now edit plans p n c (err e) found settled h = (c, found, Kept-same c settled)
attempt-Kept now (saving project number input) plans p n c (ok after) found settled h =
    upsert-Kept plans p n c found settled now project number input after h
attempt-Kept now (answering project number input) plans p n c (ok after) found settled h =
    answers-Kept plans p n c found settled now project number input after h
attempt-Kept now (moving project number status) plans p n c (ok after) found settled h =
    transition-Kept plans p n c found settled now project number status after h

-- A checkpoint that is frozen or built keeps its title, summary and body and the time when it was
-- frozen, and stays frozen or built, through any number of attempts, in any order and at any times, to
-- save checkpoints, to save answers and to move checkpoints from one status to another.
pub run-Kept :
    (edits : List (ℕ × Edit)) (plans : Plans) (p : Slug) (n : ℕ) (c : PlanningCheckpoint)
    → checkpoint_of plans p n ≡ some c
    → is_settled c.status ≡ true
    → (after : PlanningCheckpoint) × (checkpoint_of (run edits plans) p n ≡ some after)
      × Kept c after
run-Kept [] plans p n c found settled = (c, found, Kept-same c settled)
run-Kept ((now, edit) ∷ rest) plans p n c found settled =
    let (mid, there, kept) =
      attempt-Kept now edit plans p n c (attempt now edit plans) found settled refl in
    let (after, last, later) =
      run-Kept rest (settle (attempt now edit plans) plans) p n mid there kept.settled in
    (after, last, Kept-both c mid after kept later)
