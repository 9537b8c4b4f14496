-- ===== src/Planning/Replace/Recut.antt =====
-- Pebbles are cut from a frozen checkpoint only, and only its own are replaced.
use not_so_simple_software_f.Prelude.{
  ℕ, ◌≡◌, refl, sym, ap, ◌∙◌, inl, inr, true, false, not, String, some, List, [], ◌∷◌, map, arith,
  ℤ, Bool-cases,
}
use not_so_simple_software_f.Table.{select}
use not_so_simple_software_f.Service.{ok}
use not_so_simple_software_f.Service.Laws.{
  >>=-eq-ok, refuse_if-eq-ok, or_not_found-eq-ok, ok-injective,
}
use not_so_simple_software_f.Planning.Keys.{Slug, same_text, valid_checkpoint_key}
use not_so_simple_software_f.Planning.Edits.{
  frozen, PlanningStatus, PlanningCheckpoint, is_frozen, checkpoint_of,
}
use not_so_simple_software_f.Planning.Split.{
  PlanningStone, PlanningPebble, SavePlanningPebblesRequest, Split, normalize_planning_split,
}
use not_so_simple_software_f.Planning.Split.Normal.{Normal, normalize_planning_split-Normal}
use not_so_simple_software_f.Planning.Insert.{Piece, Board}
use not_so_simple_software_f.Planning.Replace.{
  under, replaced, replace_rows, replace_planning_pebbles,
}

-- What is under a checkpoint, and what is not.
abbrev pub contents_under : {A : Type 0} → Slug → ℕ → List (Piece A) → List A
contents_under project number rows = map (λ p. p.content) (select (under project number) rows)

abbrev pub elsewhere : {A : Type 0} → Slug → ℕ → List (Piece A) → List (Piece A)
elsewhere project number rows = select (λ p. not (under project number p)) rows

same_text_refl : (a : List ℕ) → same_text a a ≡ true
same_text_refl [] = refl
same_text_refl (x ∷ a) = ground (arith, same_text_refl a)

module _ (A : Type 0) (project : Slug) (number : ℕ) where
  new_rows : List A → List (Piece A)
  new_rows contents = map (λ c. record { project = project; number = number; content = c }) contents

  new-under :
      (c : A)
      → under project number (record { project = project; number = number; content = c }) ≡ true
  new-under c = ground (arith, same_text_refl project)

  under-replaced :
      (contents : List A) (rows : List (Piece A))
      → contents_under project number (replaced project number contents rows) ≡ contents
  under-replaced contents (p ∷ rows) = elim (Bool-cases (under project number p)) [
    | inl mine ↦ rw mine (under-replaced contents rows)
    | inr other ↦ rw (other, other) (under-replaced contents rows)
  ]
  under-replaced [] [] = refl
  under-replaced (c ∷ contents) [] = rw (new-under c) (ap (λ l. c ∷ l) (under-replaced contents []))

  elsewhere-replaced :
      (contents : List A) (rows : List (Piece A))
      → elsewhere project number (replaced project number contents rows)
        ≡ elsewhere project number rows
  elsewhere-replaced contents (p ∷ rows) = elim (Bool-cases (under project number p)) [
    | inl mine ↦ rw mine (elsewhere-replaced contents rows)
    | inr other ↦ rw (other, other) (ap (λ l. p ∷ l) (elsewhere-replaced contents rows))
  ]
  elsewhere-replaced [] [] = refl
  elsewhere-replaced (c ∷ contents) [] = rw (new-under c) (elsewhere-replaced contents [])

is_frozen-eq : (status : PlanningStatus) → not (is_frozen status) ≡ false → status ≡ frozen
is_frozen-eq status h = ground arith

-- What a replacement that succeeds leaves: `project` and `number` are those that were asked for, and `split`
-- is the split that was sent.
pub record Recut (project_text : String) (number_text : ℤ) (input : SavePlanningPebblesRequest)
    (board after : Board) : Type 0 where
  pub project : Slug
  pub number : ℕ
  pub asked : valid_checkpoint_key project_text number_text ≡ ok (project, number)
  pub checkpoint : PlanningCheckpoint
  pub found : checkpoint_of board.plans project number ≡ some checkpoint
  pub is_frozen_now : checkpoint.status ≡ frozen
  pub split : Split
  pub sent : normalize_planning_split input ≡ ok split
  pub normal : Normal split
  pub stones : contents_under project number after.stones ≡ split.stones
  pub pebbles : contents_under project number after.pebbles ≡ split.pebbles
  pub other_stones : elsewhere project number after.stones ≡ elsewhere project number board.stones
  pub other_pebbles :
      elsewhere project number after.pebbles ≡ elsewhere project number board.pebbles

-- A split that is written was cut from the checkpoint that the request names, and that checkpoint is frozen:
-- afterwards it has exactly the stones and the pebbles of the split that the request holds, whose ids, slugs and ordinals are unique and whose pebbles name stones of the
-- split, and every other checkpoint has the stones and pebbles that it had.
pub replace_planning_pebbles-Recut :
    (now : ℕ) (project_text : String) (number_text : ℤ) (input : SavePlanningPebblesRequest)
    (board after : Board)
    → replace_planning_pebbles now project_text number_text input board ≡ ok after
    → Recut project_text number_text input board after
unfolding replace_planning_pebbles replace_rows
replace_planning_pebbles-Recut now project_text number_text input board after h =
    let ((project, number), asked, h1) =
      >>=-eq-ok (valid_checkpoint_key project_text number_text) _ h in
    let (split, made, h2) = >>=-eq-ok (normalize_planning_split input) _ h1 in
    let (c, found, h3) = or_not_found-eq-ok (checkpoint_of board.plans project number) _ h2 in
    let (fixed, h4) = refuse_if-eq-ok (not (is_frozen c.status)) _ _ h3 in
    let written = sym (ok-injective h4) in
    record {
      project = project;
      number = number;
      asked = asked;
      checkpoint = c;
      found = found;
      is_frozen_now = is_frozen-eq c.status fixed;
      split = split;
      sent = made;
      normal = normalize_planning_split-Normal input split made;
      stones =
          ap (λ b. contents_under project number b.stones) written
          ∙ under-replaced PlanningStone project number split.stones board.stones;
      pebbles =
          ap (λ b. contents_under project number b.pebbles) written
          ∙ under-replaced PlanningPebble project number split.pebbles board.pebbles;
      other_stones =
          ap (λ b. elsewhere project number b.stones) written
          ∙ elsewhere-replaced PlanningStone project number split.stones board.stones;
      other_pebbles =
          ap (λ b. elsewhere project number b.pebbles) written
          ∙ elsewhere-replaced PlanningPebble project number split.pebbles board.pebbles;
    }
