-- ===== src/Planning/Insert/Settled.antt =====
-- An insertion never renumbers a checkpoint that is frozen or built.
use not_so_simple_software_f.Prelude.{
  ℕ, ◌+◌, ◌≤◌, ◌<◌, ◌≡◌, ◌⊎◌, inl, inr, refl, sym, ap, ◌∙◌, subst, Bool, true, false, ◌&&◌, String,
  some, List, [], ◌∷◌, map, arith, leb, leb→le, ◌==◌, ℤ, Bool-cases, &&-left, &&-right,
}
use not_so_simple_software_f.Table.{find_row, exists_where}
use not_so_simple_software_f.Table.Laws.{find_row_test}
use not_so_simple_software_f.Service.{ok}
use not_so_simple_software_f.Planning.Keys.{Slug, same_text}
use not_so_simple_software_f.Planning.Edits.{is_settled, PlanningCheckpoint, at_key, checkpoint_of}
use not_so_simple_software_f.Planning.Frozen.{same_text-eq, find_row-append}
use not_so_simple_software_f.Planning.Shift.{lifted}
use not_so_simple_software_f.Planning.Insert.{
  Board, InsertPlanningCheckpointRequest, blocks, checkpoints_of, insert_planning_checkpoint,
}
use not_so_simple_software_f.Planning.Insert.Lifted.{
  insert_planning_checkpoint-Accepted, Accepted-checkpoints,
}

exists-none {ℓ} :
    {R : Type ℓ} (q k : R → Bool) (rows : List R) (r : R)
    → exists_where q rows ≡ false
    → find_row k rows ≡ some r
    → q r ≡ false
exists-none q k [] r h found = cc
exists-none q k (x ∷ rows) r h found = ground (arith, h, found, exists-none q k rows r)

find_row-map {ℓ} :
    {R : Type ℓ} (k : R → Bool) (f : R → R) (rows : List R) (r : R)
    → ((x : R) → k (f x) ≡ k x)
    → find_row k rows ≡ some r
    → find_row k (map f rows) ≡ some (f r)
find_row-map k f [] r same h = cc
find_row-map k f (x ∷ rows) r same h = ground (arith, same x, h, find_row-map k f rows r same)

-- A key that the shift does not reach: of another project, or below the number.
abbrev Away : Slug → ℕ → Slug → ℕ → Type 0
Away project number p n = (same_text project p ≡ false) ⊎ (n < number)

apart : (m n : ℕ) → n < m → (m + 1 == n) ≡ (m == n)
apart m n h = ground (arith, h)

lifted-Away :
    (project : Slug) (number : ℕ) (p : Slug) (n : ℕ) (x : PlanningCheckpoint)
    → Away project number p n
    → at_key p n (lifted (checkpoints_of project) number x) ≡ at_key p n x
lifted-Away project number p n x away =
    elim (Bool-cases (same_text x.project project && leb number x.number)) [
      | inr stays ↦ rw stays refl
      | inl moves ↦
          let e : x.project ≡ project = same_text-eq x.project project (&&-left _ _ moves) in
          let up : number ≤ x.number =
            leb→le number x.number (&&-right (same_text x.project project) _ moves) in
          rw moves (elim away [
            | inl other ↦
                let none_here : same_text x.project p ≡ false = ap (λ q. same_text q p) e ∙ other in
                rw none_here refl
            | inr low ↦
                ap (λ b. same_text x.project p && b) (apart x.number n (omega (arith, low, up)))
          ])
    ]

at_key-Away :
    (project : Slug) (number : ℕ) (p : Slug) (n : ℕ) (c : PlanningCheckpoint)
    → at_key p n c ≡ true
    → (same_text c.project project && leb number c.number) ≡ false
    → Away project number p n
at_key-Away project number p n c mine still = elim (Bool-cases (same_text project p)) [
  | inr other ↦ inl other
  | inl same ↦
      let e : project ≡ p = same_text-eq project p same in
      let here : same_text c.project project ≡ true =
        subst (λ q. same_text c.project q ≡ true) (sym e)
          (&&-left (same_text c.project p) _ mine) in
      inr (ground (arith, mine, still, here))
]

-- A checkpoint that is frozen or built keeps its key and its row through an insertion that succeeds.
pub insert_planning_checkpoint-settled :
    (now : ℕ) (project_text : String) (number_text : ℤ) (input : InsertPlanningCheckpointRequest)
    (board after : Board) (p : Slug) (n : ℕ) (c : PlanningCheckpoint)
    → checkpoint_of board.plans p n ≡ some c
    → is_settled c.status ≡ true
    → insert_planning_checkpoint now project_text number_text input board ≡ ok after
    → checkpoint_of after.plans p n ≡ some c
insert_planning_checkpoint-settled now project_text number_text input board after p n c found
      settled h =
    let a = insert_planning_checkpoint-Accepted now project_text number_text input board after h in
    let clear =
      exists-none (blocks a.project a.number) (at_key p n) board.plans.checkpoints c a.clean
        found in
    let mine = find_row_test (at_key p n) board.plans.checkpoints c found in
    let still : (same_text c.project a.project && leb a.number c.number) ≡ false =
      ground (arith, clear, settled) in
    let same : lifted (checkpoints_of a.project) a.number c ≡ c = rw still refl in
    ap (λ rows. find_row (at_key p n) rows) (Accepted-checkpoints a)
    ∙ find_row-append (at_key p n) _ _ c (
        find_row-map (at_key p n) (lifted (checkpoints_of a.project) a.number)
          board.plans.checkpoints c
          (λ x.
            lifted-Away a.project a.number p n x (at_key-Away a.project a.number p n c mine still))
          found
        ∙ ap some same)
