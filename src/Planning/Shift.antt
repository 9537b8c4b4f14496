-- ===== src/Planning/Shift.antt =====
-- The shift of the numbers of a project's rows, from the highest down: each UPDATE moves the rows of one
-- number into the number above, which the one before it has vacated.
use not_so_simple_software_f.Prelude.{
  ℕ, zero, suc, ◌+◌, ◌≤◌, ◌<◌, ◌≡◌, refl, ap, ◌∙◌, inl, inr, ◌⊎◌, Bool, true, false, ◌&&◌, List, [],
  ◌∷◌, map, arith, leb, leb→le, ◌==◌, ==_iff, Bool-cases, if◌then◌else◌,
}
use not_so_simple_software_f.Table.{update_where, All}

-- What the tables have in common: which rows are the project's, and the number of a row.
pub record Numbered {ℓ} (R : Type ℓ) : Type ℓ where
  pub mine : R → Bool
  pub number : R → ℕ
  pub moved : R → R

-- SET number = number + 1.
pub record Moves {ℓ} {R : Type ℓ} (t : Numbered R) : Type ℓ where
  pub same_project : (r : R) → t.mine (t.moved r) ≡ t.mine r
  pub next_number : (r : R) → t.number (t.moved r) ≡ t.number r + 1

module _ {ℓ} {R : Type ℓ} (t : Numbered R) where
  abbrev pub stands_at : ℕ → R → Bool
  stands_at n r = t.mine r && t.number r == n

  -- UPDATE ... SET number = number + 1 WHERE project = ? AND number = ?
  unfoldable pub move_at : ℕ → List R → List R
  move_at n rows = update_where (stands_at n) t.moved rows

  -- `count` turns of the loop, the last one at `from`.
  unfoldable pub shift_down : ℕ → ℕ → List R → List R
  shift_down from zero rows = rows
  shift_down from (suc count) rows = shift_down from count (move_at (from + count) rows)

  -- The shift in one step.
  abbrev pub lifted : ℕ → R → R
  lifted from r = if t.mine r && leb from (t.number r) then t.moved r else r

  abbrev pub shift_all : ℕ → List R → List R
  shift_all from rows = map (lifted from) rows

and_false : (b : Bool) → (b && false) ≡ false
and_false true = refl
and_false false = refl

below : (a b : ℕ) → (a == b) ≡ false → a ≤ b → a < b
below a b h k = ground (arith, h, k)

module _ {ℓ} {R : Type ℓ} (t : Numbered R) where
  -- One row, in the loop.
  row_shift : ℕ → ℕ → R → R
  row_shift from zero r = r
  row_shift from (suc count) r =
      row_shift from count (if stands_at t (from + count) r then t.moved r else r)

  map-move :
      (f : R → R) (n : ℕ) (rows : List R)
      → map f (move_at t n rows) ≡ map (λ r. f (if stands_at t n r then t.moved r else r)) rows
  unfolding move_at
  map-move f n [] = refl
  map-move f n (r ∷ rows) =
      ap (λ l. f (if stands_at t n r then t.moved r else r) ∷ l) (map-move f n rows)

  map_id : (rows : List R) → rows ≡ map (λ r. r) rows
  map_id [] = refl
  map_id (r ∷ rows) = ap (λ l. r ∷ l) (map_id rows)

  shift_down-rows :
      (from count : ℕ) (rows : List R)
      → shift_down t from count rows ≡ map (row_shift from count) rows
  unfolding shift_down row_shift
  shift_down-rows from zero rows = map_id rows
  shift_down-rows from (suc count) rows =
      shift_down-rows from count (move_at t (from + count) rows)
      ∙ map-move (row_shift from count) (from + count) rows

  stands_at-other : (n : ℕ) (r : R) → (t.number r ≡ n → ⊥) → stands_at t n r ≡ false
  stands_at-other n r other = elim (Bool-cases (t.number r == n)) [
    | inl same ↦ absurd (other ((==_iff (t.number r) n).0 same))
    | inr no_match ↦ rw no_match (and_false (t.mine r))
  ]

  row_shift-other : (from count : ℕ) (r : R) → t.mine r ≡ false → row_shift from count r ≡ r
  unfolding row_shift
  row_shift-other from zero r other = refl
  row_shift-other from (suc count) r other =
      rw (row_shift, other) (row_shift-other from count r other)

  -- A row outside the range of the loop stays.
  row_shift-outside :
      (from count : ℕ) (r : R)
      → (t.number r < from) ⊎ (from + count ≤ t.number r)
      → row_shift from count r ≡ r
  unfolding row_shift
  row_shift-outside from zero r outside = refl
  row_shift-outside from (suc count) r outside =
      let stays : stands_at t (from + count) r ≡ false = stands_at-other (from + count) r (λ e.
        elim outside [
          | inl below ↦ omega (arith, below, e)
          | inr above ↦ omega (arith, above, e)
        ]) in
      rw (row_shift, stays)
        (row_shift-outside from count r
          (elim outside [ inl below ↦ inl below | inr above ↦ inr (omega (arith, above)) ]))

  -- A row in the range moves once.
  row_shift-inside :
      Moves t
      → (from count : ℕ) (r : R) → t.mine r ≡ true
      → from ≤ t.number r
      → t.number r < from + count
      → row_shift from count r ≡ t.moved r
  unfolding row_shift
  row_shift-inside laws from zero r mine low high = absurd (omega (arith, low, high))
  row_shift-inside laws from (suc count) r mine low high =
      elim (Bool-cases (t.number r == from + count)) [
        | inl at ↦
            let e : t.number r ≡ from + count = (==_iff _ _).0 at in
            rw (row_shift, mine, at)
              (row_shift-outside from count (t.moved r)
                (inr (let next = laws.next_number r in omega (arith, e, next))))
        | inr lower ↦
            let lt : t.number r < from + count =
              below (t.number r) (from + count) lower (omega (arith, high)) in
            rw (row_shift, mine, lower) (row_shift-inside laws from count r mine low lt)
      ]

  row_shift-lifted :
      Moves t
      → (from count : ℕ) (r : R) → (t.mine r ≡ false) ⊎ (t.number r < from + count)
      → row_shift from count r ≡ lifted t from r
  row_shift-lifted laws from count r high = elim (Bool-cases (t.mine r)) [
    | inr other ↦ rw other (row_shift-other from count r other)
    | inl mine ↦
        let top : t.number r < from + count = in_range mine high in
        elim (Bool-cases (leb from (t.number r))) [
          | inl above ↦
              rw (mine, above)
                (row_shift-inside laws from count r mine (leb→le from (t.number r) above) top)
          | inr under ↦
              rw (mine, under) (row_shift-outside from count r (inl (ground (arith, under))))
        ]
  ]
    where
      in_range :
          t.mine r ≡ true
          → (t.mine r ≡ false) ⊎ (t.number r < from + count)
          → t.number r < from + count
      in_range mine (inl other) = cc
      in_range mine (inr lt) = lt

  -- The loop, from above all numbers of the project's rows down, is one simultaneous shift.
  pub shift_down-shift_all :
      Moves t
      → (from count : ℕ) (rows : List R)
      → All (λ r. (t.mine r ≡ false) ⊎ (t.number r < from + count)) rows
      → shift_down t from count rows ≡ shift_all t from rows
  shift_down-shift_all laws from count rows highest =
      shift_down-rows from count rows ∙ each rows highest
    where
      each :
          (rows : List R)
          → All (λ r. (t.mine r ≡ false) ⊎ (t.number r < from + count)) rows
          → map (row_shift from count) rows ≡ map (lifted t from) rows
      each [] h = refl
      each (r ∷ rest) h = rw (row_shift-lifted laws from count r h.0, each rest h.1) refl
