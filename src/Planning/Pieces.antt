-- ===== src/Planning/Pieces.antt =====
-- The edits that move or replace stones and pebbles, one after the other: each stone and each pebble stays
-- under a checkpoint.
use not_so_simple_software_f.Prelude.{ℕ, ◌≡◌, subst, not, String, ℤ, if-keeps}
use not_so_simple_software_f.Table.{exists_where}
use not_so_simple_software_f.Table.Laws.{All-update_where}
use not_so_simple_software_f.Cron.Text.{is_empty}
use not_so_simple_software_f.Service.{ok}
use not_so_simple_software_f.Service.Laws.{
  >>=-eq-ok, refuse_if-eq-ok, or_not_found-eq-ok, ok-injective,
}
use not_so_simple_software_f.Planning.Keys.{lowered, trim_space, valid_checkpoint_key, bounded_text}
use not_so_simple_software_f.Planning.Edits.{is_frozen, checkpoint_of}
use not_so_simple_software_f.Planning.Split.{SavePlanningPebblesRequest, normalize_planning_split}
use not_so_simple_software_f.Planning.Insert.{
  Board, InsertPlanningCheckpointRequest, insert_planning_checkpoint,
}
use not_so_simple_software_f.Planning.Insert.Lifted.{IsUnder, insert_planning_checkpoint-Lifted}
use not_so_simple_software_f.Planning.Replace.{
  replace_planning_pebbles, is_pebble, built_at_ref, mark_planning_pebble_built,
}
use not_so_simple_software_f.Planning.Under.{AllUnder, Lifted-AllUnder, replace_rows-AllUnder}

-- One edit that succeeds.
pub data Edit : Board → Board → Type 0 where
  inserts :
      {board after : Board} (now : ℕ) (project : String) (number : ℤ)
      (input : InsertPlanningCheckpointRequest)
      → insert_planning_checkpoint now project number input board ≡ ok after
      → Edit board after
  replaces :
      {board after : Board} (now : ℕ) (project : String) (number : ℤ)
      (input : SavePlanningPebblesRequest)
      → replace_planning_pebbles now project number input board ≡ ok after
      → Edit board after
  marks :
      {board after : Board} (now : ℕ) (project : String) (number : ℤ) (slug ref : String)
      → mark_planning_pebble_built now project number slug ref board ≡ ok after
      → Edit board after

replaces-AllUnder :
    (now : ℕ) (project_text : String) (number_text : ℤ) (input : SavePlanningPebblesRequest)
    {board after : Board}
    → AllUnder board
    → replace_planning_pebbles now project_text number_text input board ≡ ok after
    → AllUnder after
unfolding replace_planning_pebbles
replaces-AllUnder now project_text number_text input {board} all h =
    let ((project, number), _, h1) =
      >>=-eq-ok (valid_checkpoint_key project_text number_text) _ h in
    let (split, _, h2) = >>=-eq-ok (normalize_planning_split input) _ h1 in
    let (c, found, h3) = or_not_found-eq-ok (checkpoint_of board.plans project number) _ h2 in
    let (_, h4) = refuse_if-eq-ok (not (is_frozen c.status)) _ _ h3 in
    subst AllUnder (ok-injective h4)
      (replace_rows-AllUnder now project number split board c found all)

marks-AllUnder :
    (now : ℕ) (project_text : String) (number_text : ℤ) (slug_text ref_text : String)
    {board after : Board}
    → AllUnder board
    → mark_planning_pebble_built now project_text number_text slug_text ref_text board ≡ ok after
    → AllUnder after
unfolding mark_planning_pebble_built
marks-AllUnder now project_text number_text slug_text ref_text {board} all h =
    let ((project, number), _, h1) =
      >>=-eq-ok (valid_checkpoint_key project_text number_text) _ h in
    let (_, h2) = refuse_if-eq-ok (is_empty (trim_space ref_text)) _ _ h1 in
    let (ref, _, h3) = >>=-eq-ok (bounded_text ref_text 512 "invalid_planning_built_ref") _ h2 in
    let slug = lowered (trim_space slug_text) in
    let (_, h4) =
      refuse_if-eq-ok (not (exists_where (is_pebble project number slug) board.pebbles)) _ _ h3 in
    subst AllUnder (ok-injective h4) (record {
      stones = all.stones;
      pebbles =
          All-update_where _ _ (is_pebble project number slug) (built_at_ref now ref) board.pebbles
            all.pebbles
            (λ p under_it.
              if-keeps (IsUnder board) (is_pebble project number slug p) _ _ under_it under_it);
    })

Edit-AllUnder : {board after : Board} → AllUnder board → Edit board after → AllUnder after
Edit-AllUnder {board} {after} all (inserts now project number input h) =
    let (p, n, _, l) =
      insert_planning_checkpoint-Lifted now project number input board after all.stones all.pebbles
        h in
    Lifted-AllUnder now board after p n l all
Edit-AllUnder all (replaces now project number input h) =
    replaces-AllUnder now project number input all h
Edit-AllUnder all (marks now project number slug ref h) =
    marks-AllUnder now project number slug ref all h

pub data Edits : Board → Board → Type 0 where
  unedited : {board : Board} → Edits board board
  edited : {first second third : Board} → Edits first second → Edit second third → Edits first third

-- Through any insertions, replacements of splits and marks of built pebbles that succeed, in any order and at any
-- times, every stone and every pebble stays under a checkpoint that exists.
pub Edits-AllUnder : {board after : Board} → AllUnder board → Edits board after → AllUnder after
Edits-AllUnder all unedited = all
Edits-AllUnder all (edited before last) = Edit-AllUnder (Edits-AllUnder all before) last
