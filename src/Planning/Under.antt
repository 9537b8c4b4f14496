-- ===== src/Planning/Under.antt =====
-- Each stone and each pebble stays under a checkpoint when checkpoints are shifted and a split is replaced.
use not_so_simple_software_f.Prelude.{
  ℕ, ◌≡◌, refl, sym, ap, ◌∙◌, subst, inl, inr, Bool, true, ◌&&◌, some, List, [], ◌∷◌, ◌++◌, map,
  arith, leb, ◌==◌, ==_iff, Bool-cases, &&-left, &&-right,
}
use not_so_simple_software_f.Table.{find_row, select, update_where, exists_where, All}
use not_so_simple_software_f.Table.Laws.{All-map}
use not_so_simple_software_f.Planning.Keys.{Slug, same_text}
use not_so_simple_software_f.Planning.Edits.{PlanningCheckpoint, at_key, checkpoint_of}
use not_so_simple_software_f.Planning.Frozen.{same_text-eq}
use not_so_simple_software_f.Planning.Split.{PlanningStone, PlanningPebble, Split}
use not_so_simple_software_f.Planning.Shift.{lifted}
use not_so_simple_software_f.Planning.Insert.{Piece, Board, checkpoints_of, pieces_of}
use not_so_simple_software_f.Planning.Insert.Lifted.{IsUnder, Lifted}
use not_so_simple_software_f.Planning.Replace.{replaced, replace_rows}

-- The foreign keys of both tables.
pub record AllUnder (board : Board) : Type 0 where
  pub stones : All (IsUnder board) board.stones
  pub pebbles : All (IsUnder board) board.pebbles

exists-map {ℓ} :
    {R : Type ℓ} (k l : R → Bool) (f : R → R) (rows more : List R)
    → ((x : R) → k x ≡ true → l (f x) ≡ true)
    → exists_where k rows ≡ true
    → exists_where l (map f rows ++ more) ≡ true
exists-map k l f [] more keeps h = cc
exists-map k l f (x ∷ rows) more keeps h = elim (Bool-cases (k x)) [
  | inl here ↦ rw (keeps x here) refl
  | inr other ↦ ground (arith, h, other, exists-map k l f rows more keeps)
]

All-mapped {ℓ κ} :
    {R : Type ℓ} (P Q : R → Type κ) (f : R → R) (rows : List R)
    → ((r : R) → P r → Q (f r))
    → All P rows
    → All Q (map f rows)
All-mapped P Q f [] keeps h = tt
All-mapped P Q f (r ∷ rows) keeps h = (keeps r h.0, All-mapped P Q f rows keeps h.1)

-- A checkpoint and what is under it move together.
together :
    (A : Type 0) (project : Slug) (number : ℕ) (p : Piece A) (c : PlanningCheckpoint)
    → (same_text c.project p.project && c.number == p.number) ≡ true
    → (same_text
          (lifted (checkpoints_of project) number c).project
          (lifted (pieces_of A project) number p).project
        && (lifted (checkpoints_of project) number c).number
          == (lifted (pieces_of A project) number p).number)
      ≡ true
together A project number p c h =
    let projects : c.project ≡ p.project = same_text-eq c.project p.project (&&-left _ _ h) in
    let numbers : c.number ≡ p.number =
      (==_iff _ _).0 (&&-right (same_text c.project p.project) _ h) in
    let alike : (same_text c.project project && leb number c.number)
        ≡ (same_text p.project project && leb number p.number) =
      ap (λ q. same_text q project && leb number c.number) projects
      ∙ ap (λ n. same_text p.project project && leb number n) numbers in
    elim (Bool-cases (same_text p.project project && leb number p.number)) [
      | inl moves ↦ let moves_too = alike ∙ moves in rw (moves, moves_too) (ground (arith, h))
      | inr stays ↦ let stays_too = alike ∙ stays in rw (stays, stays_too) h
    ]

module _ (now : ℕ) (board after : Board) (project : Slug) (number : ℕ)
    (l : Lifted now board after project number) where
  lifted-IsUnder :
      (A : Type 0) (p : Piece A)
      → IsUnder board p
      → IsUnder after (lifted (pieces_of A project) number p)
  lifted-IsUnder A p h =
      ap
        (λ rows.
          exists_where
            (λ c.
              same_text c.project (lifted (pieces_of A project) number p).project
              && c.number == (lifted (pieces_of A project) number p).number)
            rows)
        l.checkpoints
      ∙ exists-map (λ c. same_text c.project p.project && c.number == p.number) _
          (lifted (checkpoints_of project) number) board.plans.checkpoints _
          (together A project number p) h

  pub Lifted-AllUnder : AllUnder board → AllUnder after
  Lifted-AllUnder h = record {
    stones = subst (All (IsUnder after)) (sym l.stones) (
        All-mapped _ _ (lifted (pieces_of PlanningStone project) number) board.stones
          (lifted-IsUnder PlanningStone) h.stones);
    pebbles = subst (All (IsUnder after)) (sym l.pebbles) (
        All-mapped _ _ (lifted (pieces_of PlanningPebble project) number) board.pebbles
          (lifted-IsUnder PlanningPebble) h.pebbles);
  }

exists-update :
    (k p : PlanningCheckpoint → Bool) (f : PlanningCheckpoint → PlanningCheckpoint)
    (rows : List PlanningCheckpoint)
    → ((x : PlanningCheckpoint) → k (f x) ≡ k x)
    → exists_where k (update_where p f rows) ≡ exists_where k rows
exists-update k p f [] same = refl
exists-update k p f (x ∷ rows) same = ground (arith, same x, exists-update k p f rows same)

exists-found :
    (k l : PlanningCheckpoint → Bool) (rows : List PlanningCheckpoint) (c : PlanningCheckpoint)
    → ((x : PlanningCheckpoint) → k x ≡ l x)
    → find_row k rows ≡ some c
    → exists_where l rows ≡ true
exists-found k l [] c same h = cc
exists-found k l (x ∷ rows) c same h = ground (arith, h, same x, exists-found k l rows c same)

All-select {ℓ κ} :
    {R : Type ℓ} (P : R → Type κ) (p : R → Bool) (rows : List R)
    → All P rows
    → All P (select p rows)
All-select P p [] h = tt
All-select P p (r ∷ rows) h = elim (Bool-cases (p r)) [
  | inl kept ↦ rw kept (h.0, All-select P p rows h.1)
  | inr dropped ↦ rw dropped (All-select P p rows h.1)
]

All-append {ℓ κ} :
    {R : Type ℓ} (P : R → Type κ) (rows more : List R)
    → All P rows
    → All P more
    → All P (rows ++ more)
All-append P [] more h k = k
All-append P (r ∷ rows) more h k = (h.0, All-append P rows more h.1 k)

module _ (now : ℕ) (project : Slug) (number : ℕ) (split : Split) (board : Board)
    (c : PlanningCheckpoint) (found : checkpoint_of board.plans project number ≡ some c) where
  new-IsUnder :
      (A : Type 0) (contents : List A)
      → All
          (IsUnder board)
          (map (λ x. record { project = project; number = number; content = x }) contents)
  new-IsUnder A [] = tt
  new-IsUnder A (x ∷ contents) = (
    exists-found (at_key project number) _ board.plans.checkpoints c (λ d. refl) found,
    new-IsUnder A contents,
  )

  -- The times of the checkpoints change, and their keys do not.
  touched-IsUnder :
      (A : Type 0) (p : Piece A)
      → IsUnder board p
      → IsUnder (replace_rows now project number split board) p
  unfolding replace_rows
  touched-IsUnder A p h =
      exists-update (λ c. same_text c.project p.project && c.number == p.number)
        (at_key project number) (λ c. record c { updated_at = now }) board.plans.checkpoints
        (λ c. refl)
      ∙ h

  replaced-IsUnder :
      (A : Type 0) (contents : List A) (rows : List (Piece A))
      → All (IsUnder board) rows
      → All
          (IsUnder (replace_rows now project number split board))
          (replaced project number contents rows)
  replaced-IsUnder A contents rows h =
      All-map _ _ (replaced project number contents rows)
        (All-append _ _ _ (All-select _ _ rows h) (new-IsUnder A contents)) (touched-IsUnder A)

  pub replace_rows-AllUnder :
      AllUnder board → AllUnder (replace_rows now project number split board)
  unfolding replace_rows
  replace_rows-AllUnder h = record {
    stones = replaced-IsUnder PlanningStone split.stones board.stones h.stones;
    pebbles = replaced-IsUnder PlanningPebble split.pebbles board.pebbles h.pebbles;
  }
