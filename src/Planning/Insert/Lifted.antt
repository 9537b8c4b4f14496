-- ===== src/Planning/Insert/Lifted.antt =====
-- What an insertion that succeeds did.
use not_so_simple_software_f.Prelude.{
  ℕ, ◌+◌, ◌-◌, ◌≤◌, ◌<◌, ◌≡◌, ◌⊎◌, inl, inr, refl, sym, ap, ◌∙◌, subst, Bool, true, false, not,
  ◌&&◌, ◌||◌, String, List, [], ◌∷◌, ◌++◌, arith, ltb, ◌==◌, ℤ, pos, negsuc, Bool-cases, if-cases,
}
use not_so_simple_software_f.Table.{exists_where, All}
use not_so_simple_software_f.Table.Laws.{All-map}
use not_so_simple_software_f.Service.{ok, err, invalid}
use not_so_simple_software_f.Service.Laws.{>>=-eq-ok, refuse_if-eq-ok, ok-injective}
use not_so_simple_software_f.Planning.Keys.{Slug, same_text, valid_slug, bounded_text}
use not_so_simple_software_f.Planning.Edits.{PlanningCheckpoint}
use not_so_simple_software_f.Planning.Frozen.{same_text-eq}
use not_so_simple_software_f.Planning.Split.{PlanningStone, PlanningPebble}
use not_so_simple_software_f.Planning.Shift.{Moves, shift_all, shift_down-shift_all}
use not_so_simple_software_f.Planning.Insert.{
  Piece, Board, InsertPlanningCheckpointRequest, highest_number, blocks, checkpoints_of, pieces_of,
  new_checkpoint, insert_rows, insert_number, insert_planning_checkpoint,
}

-- The project and the number of an insertion that was not refused.
pub record Accepted (now : ℕ) (number_text : ℤ) (board after : Board) : Type 0 where
  pub project : Slug
  pub number : ℕ
  pub text : InsertPlanningCheckpointRequest
  pub asked : number_text ≡ pos number
  pub in_route : (1 ≤ number) × (number ≤ highest_number project board.plans.checkpoints + 1)
  pub clean : exists_where (blocks project number) board.plans.checkpoints ≡ false
  pub written :
      after
      ≡ insert_rows now project number
          (highest_number project board.plans.checkpoints + 1 - number)
          text
          board

insert_number-eq-ok :
    (number_text : ℤ) (highest : ℕ) {n : ℕ}
    → insert_number number_text highest ≡ ok n
    → (number_text ≡ pos n) × (1 ≤ n) × (n ≤ highest + 1)
insert_number-eq-ok (negsuc m) highest h = cc
insert_number-eq-ok (pos m) highest h =
    elim (if-cases (ltb m 1 || ltb (highest + 1) m)
      (err (invalid "planning_invalid_checkpoint_number")) (ok m) h) [
        | inl (bad, e) ↦ cc
        | inr (good, e) ↦
            let same : m ≡ _ = ok-injective e in
            (ap pos same, ground (arith, good, same), ground (arith, good, same))
      ]

pub insert_planning_checkpoint-Accepted :
    (now : ℕ) (project_text : String) (number_text : ℤ) (input : InsertPlanningCheckpointRequest)
    (board after : Board)
    → insert_planning_checkpoint now project_text number_text input board ≡ ok after
    → Accepted now number_text board after
unfolding insert_planning_checkpoint
insert_planning_checkpoint-Accepted now project_text number_text input board after h =
    let (project, _, h1) = >>=-eq-ok (valid_slug project_text "invalid_planning_project") _ h in
    let (title, _, h2) = >>=-eq-ok (bounded_text input.title 200 "invalid_planning_title") _ h1 in
    let (summary, _, h3) =
      >>=-eq-ok (bounded_text input.summary 240 "invalid_planning_summary") _ h2 in
    let (route, _, h4) = >>=-eq-ok (bounded_text input.route 65536 "invalid_planning_route") _ h3 in
    let (_, h5) =
      refuse_if-eq-ok (not (exists_where (λ p. same_text p project) board.plans.projects)) _ _ h4 in
    let (number, at, h6) =
      >>=-eq-ok (insert_number number_text (highest_number project board.plans.checkpoints)) _ h5 in
    let (asked, low, high) = insert_number-eq-ok number_text _ at in
    let (clean, h7) =
      refuse_if-eq-ok (exists_where (blocks project number) board.plans.checkpoints) _ _ h6 in
    record {
      project = project;
      number = number;
      text = record { title = title; summary = summary; route = route };
      asked = asked;
      in_route = (low, high);
      clean = clean;
      written = sym (ok-injective h7);
    }

checkpoints_of-Moves : (project : Slug) → Moves (checkpoints_of project)
checkpoints_of-Moves project = record { same_project = λ c. refl; next_number = λ c. refl }

pieces_of-Moves : (A : Type 0) (project : Slug) → Moves (pieces_of A project)
pieces_of-Moves A project = record { same_project = λ p. refl; next_number = λ p. refl }

head-bound :
    (project : Slug) (c : PlanningCheckpoint) (rest : List PlanningCheckpoint)
    → (same_text c.project project ≡ false) ⊎ (c.number ≤ highest_number project (c ∷ rest))
head-bound project c rest = elim (Bool-cases (same_text c.project project)) [
  | inr other ↦ inl other
  | inl mine ↦ inr (ground (arith, mine))
]

-- A checkpoint of a project is numbered within its route.
highest_number-bound :
    (project : Slug) (rows : List PlanningCheckpoint)
    → All
        (λ c. (same_text c.project project ≡ false) ⊎ (c.number ≤ highest_number project rows))
        rows
highest_number-bound project [] = tt
highest_number-bound project (c ∷ rest) =
    let grows : highest_number project rest ≤ highest_number project (c ∷ rest) = ground arith in
    (
      head-bound project c rest,
      All-map _ _ rest (highest_number-bound project rest)
          (λ d h. elim h [ inl other ↦ inl other | inr low ↦ inr (omega (arith, low, grows)) ]),
    )

in_loop :
    {number highest n : ℕ} {mine : Bool}
    → number ≤ highest + 1
    → (mine ≡ false) ⊎ (n ≤ highest)
    → (mine ≡ false) ⊎ (n < number + (highest + 1 - number))
in_loop top (inl other) = inl other
in_loop top (inr low) = inr (omega (arith, top, low))

pub Accepted-checkpoints :
    {now : ℕ} {number_text : ℤ} {board after : Board} (a : Accepted now number_text board after)
    → after.plans.checkpoints
      ≡ shift_all (checkpoints_of a.project) a.number board.plans.checkpoints
        ++ new_checkpoint now a.project a.number a.text ∷ []
unfolding insert_rows
Accepted-checkpoints {now} {board = board} a =
    let (_, top) = a.in_route in
    ap (λ b. b.plans.checkpoints) a.written
    ∙ ap (λ rows. rows ++ new_checkpoint now a.project a.number a.text ∷ [])
        (shift_down-shift_all (checkpoints_of a.project) (checkpoints_of-Moves a.project) a.number _
          board.plans.checkpoints
          (All-map _ _ board.plans.checkpoints
            (highest_number-bound a.project board.plans.checkpoints) (λ c low. in_loop top low)))

-- Every stone and every pebble stands under a checkpoint, as the foreign keys have it.
abbrev pub IsUnder : {A : Type 0} → Board → Piece A → Type 0
IsUnder board p =
    exists_where (λ c. same_text c.project p.project && c.number == p.number)
      board.plans.checkpoints
    ≡ true

exists-bound :
    (project : Slug) (n : ℕ) (rows : List PlanningCheckpoint)
    → exists_where (λ c. same_text c.project project && c.number == n) rows ≡ true
    → n ≤ highest_number project rows
exists-bound project n [] h = cc
exists-bound project n (c ∷ rest) h = ground (arith, h, exists-bound project n rest)

piece-bound :
    {A : Type 0} (board : Board) (project : Slug) (p : Piece A)
    → IsUnder board p
    → (same_text p.project project ≡ false)
      ⊎ (p.number ≤ highest_number project board.plans.checkpoints)
piece-bound board project p under = elim (Bool-cases (same_text p.project project)) [
  | inr other ↦ inl other
  | inl mine ↦
      let e : p.project ≡ project = same_text-eq p.project project mine in
      inr (
        subst (λ q. p.number ≤ highest_number q board.plans.checkpoints) e
          (exists-bound p.project p.number board.plans.checkpoints under))
]

-- What was shifted, all at once.
pub record Lifted (now : ℕ) (board after : Board) (project : Slug) (number : ℕ) : Type 0 where
  pub text : InsertPlanningCheckpointRequest
  pub checkpoints :
      after.plans.checkpoints
      ≡ shift_all (checkpoints_of project) number board.plans.checkpoints
        ++ new_checkpoint now project number text ∷ []
  pub stones : after.stones ≡ shift_all (pieces_of PlanningStone project) number board.stones
  pub pebbles : after.pebbles ≡ shift_all (pieces_of PlanningPebble project) number board.pebbles

-- An insertion that succeeds moves every checkpoint of the project at the number or above, and every stone and
-- pebble under one, up by one number, and nothing else of them; the numbers below, the other projects and
-- the order stay, and the new checkpoint stands at the number: its loop, from the highest number down,
-- is one simultaneous shift, provided that each stone and pebble stands under a checkpoint.
pub insert_planning_checkpoint-Lifted :
    (now : ℕ) (project_text : String) (number_text : ℤ) (input : InsertPlanningCheckpointRequest)
    (board after : Board)
    → All (IsUnder board) board.stones
    → All (IsUnder board) board.pebbles
    → insert_planning_checkpoint now project_text number_text input board ≡ ok after
    → (project : Slug) × (number : ℕ) × (number_text ≡ pos number)
      × Lifted now board after project number
unfolding insert_rows
insert_planning_checkpoint-Lifted now project_text number_text input board after stones pebbles h =
    let a = insert_planning_checkpoint-Accepted now project_text number_text input board after h in
    let (_, top) = a.in_route in
    (
      a.project,
      a.number,
      a.asked,
      record {
        text = a.text;
        checkpoints = Accepted-checkpoints a;
        stones =
            ap (λ b. b.stones) a.written
            ∙ shift_down-shift_all (pieces_of PlanningStone a.project)
                (pieces_of-Moves PlanningStone a.project) a.number _ board.stones
                (All-map _ _ board.stones stones
                  (λ p under. in_loop top (piece-bound board a.project p under)));
        pebbles =
            ap (λ b. b.pebbles) a.written
            ∙ shift_down-shift_all (pieces_of PlanningPebble a.project)
                (pieces_of-Moves PlanningPebble a.project) a.number _ board.pebbles
                (All-map _ _ board.pebbles pebbles
                  (λ p under. in_loop top (piece-bound board a.project p under)));
      },
    )
