-- ===== src/Table.antt =====
-- SQL over a table that is held as a list of rows: the statements of the control plane's queries
-- (SELECT of one row, UPDATE ... WHERE, DELETE ... WHERE, COUNT and EXISTS) as list functions.
pub mod Laws
use not_so_simple_software_f.Prelude.{
  ℕ, ◌+◌, Bool, true, false, List, [], ◌∷◌, Option, none, some, if◌then◌else◌,
}

module _ {ℓ} {R : Type ℓ} where
  -- SELECT ... WHERE p, read by QueryRow: the first row, or sql.ErrNoRows.
  abbrev pub find_row : (R → Bool) → List R → Option R
  find_row p [] = none
  find_row p (r ∷ rows) = if p r then some r else find_row p rows

  -- SELECT ... WHERE p, read by Query.
  abbrev pub select : (R → Bool) → List R → List R
  select p [] = []
  select p (r ∷ rows) = let rest = select p rows in if p r then r ∷ rest else rest

  -- UPDATE ... SET f WHERE p.
  abbrev pub update_where : (R → Bool) → (R → R) → List R → List R
  update_where p f [] = []
  update_where p f (r ∷ rows) = (if p r then f r else r) ∷ update_where p f rows

  -- SELECT COUNT(*) ... WHERE p: also the number of rows that an UPDATE ... WHERE p changes.
  abbrev pub count_where : (R → Bool) → List R → ℕ
  count_where p [] = 0
  count_where p (r ∷ rows) = (if p r then 1 else 0) + count_where p rows

  -- EXISTS (SELECT 1 ... WHERE p).
  abbrev pub exists_where : (R → Bool) → List R → Bool
  exists_where p [] = false
  exists_where p (r ∷ rows) = if p r then true else exists_where p rows

  -- Of every row.
  abbrev pub All {κ} : (R → Type κ) → List R → Type κ
  All P [] = Unit
  All P (r ∷ rows) = P r × All P rows
