-- ===== src/Table/Laws.antt =====
-- Laws of the SQL statements: what a later SELECT reads after an UPDATE, and what every row keeps.
use not_so_simple_software_f.Prelude.{
  ℕ, ◌+◌, ◌++◌, ◌==◌, ◌≤◌, ◌≡◌, ◌≢◌, refl, subst, Bool, true, false, List, [], ◌∷◌, Option, none,
  some, arith, if◌then◌else◌,
}
use not_so_simple_software_f.Table.{find_row, update_where, count_where, All}

-- The row that an UPDATE leaves in place of `r`.
abbrev pub updated {ℓ} : {R : Type ℓ} → (R → Bool) → (R → R) → R → R
updated p f r = if p r then f r else r

module _ {ℓ} {R : Type ℓ} where
  -- An update that leaves the key test alone is read back at the same row.
  pub find_row-update_where :
      (k p : R → Bool) (f : R → R) (rows : List R) (r : R)
      → ((x : R) → k (f x) ≡ k x)
      → find_row k rows ≡ some r
      → find_row k (update_where p f rows) ≡ some (updated p f r)
  find_row-update_where k p f [] r same h = cc
  find_row-update_where k p f (x ∷ rows) r same h =
      ground (arith, same x, find_row-update_where k p f rows r same)

  pub find_row-update_where-none :
      (k p : R → Bool) (f : R → R) (rows : List R)
      → ((x : R) → k (f x) ≡ k x)
      → find_row k rows ≡ none
      → find_row k (update_where p f rows) ≡ none
  find_row-update_where-none k p f [] same h = refl
  find_row-update_where-none k p f (x ∷ rows) same h =
      ground (arith, same x, find_row-update_where-none k p f rows same)

  pub find_row_test : (k : R → Bool) (rows : List R) (r : R) → find_row k rows ≡ some r → k r ≡ true
  find_row_test k [] r h = cc
  find_row_test k (x ∷ rows) r h = ground (arith, find_row_test k rows r)

  pub All-find_row {κ} :
      (P : R → Type κ) (k : R → Bool) (rows : List R) (r : R)
      → All P rows
      → find_row k rows ≡ some r
      → P r
  All-find_row P k [] r all h = cc
  All-find_row P k (x ∷ rows) r all h = go (All-find_row P k rows r all.1) (k x) h
    where
      go :
          (find_row k rows ≡ some r → P r)
          → (b : Bool) → (if b then some x else find_row k rows) ≡ some r
          → P r
      go later true e = let p : x ≡ r = cc e in subst P p all.0
      go later false e = later e

  pub All-update_where {κ} :
      (P Q : R → Type κ) (p : R → Bool) (f : R → R) (rows : List R)
      → All P rows
      → ((r : R) → P r → Q (updated p f r))
      → All Q (update_where p f rows)
  All-update_where P Q p f [] all keep = tt
  All-update_where P Q p f (r ∷ rows) all keep =
      (keep r all.0, All-update_where P Q p f rows all.1 keep)

  pub All-map {κ} :
      (P Q : R → Type κ) (rows : List R) → All P rows → ((r : R) → P r → Q r) → All Q rows
  All-map P Q [] all keep = tt
  All-map P Q (r ∷ rows) all keep = (keep r all.0, All-map P Q rows all.1 keep)

  -- A count of 0 says that no row passes the test.
  pub count_where-zero :
      (p k : R → Bool) (rows : List R) (r : R)
      → count_where p rows ≡ 0
      → find_row k rows ≡ some r
      → p r ≡ false
  count_where-zero p k [] r none_left h = cc
  count_where-zero p k (x ∷ rows) r none_left h = ground (arith, count_where-zero p k rows r)

pub All-everywhere {ℓ κ} :
    {R : Type ℓ} (P : R → Type κ) (rows : List R) → ((r : R) → P r) → All P rows
All-everywhere P [] h = tt
All-everywhere P (x ∷ rows) h = (h x, All-everywhere P rows h)

module _ {ℓ} {R : Type ℓ} (p : R → Bool) where
  pub All-count_where-zero : (rows : List R) → count_where p rows ≡ 0 → All (λ r. p r ≡ false) rows
  All-count_where-zero [] h = tt
  All-count_where-zero (x ∷ rows) h = (ground arith, All-count_where-zero rows (ground arith))

-- Two tests that pick equally many rows, the second at most where the first does, pick the same ones.
module _ {ℓ} {R : Type ℓ} (p q : R → Bool) (within : (r : R) → q r ≡ true → p r ≡ true) where
  pub count_where-le : (rows : List R) → count_where q rows ≤ count_where p rows
  count_where-le [] = ground arith
  count_where-le (x ∷ rows) = ground (arith, within x, count_where-le rows)

  pub All-count_where :
      (rows : List R)
      → count_where q rows ≡ count_where p rows
      → All (λ r. p r ≡ true → q r ≡ true) rows
  All-count_where [] same = tt
  All-count_where (x ∷ rows) same =
      let fewer = count_where-le rows in
      (λ h. ground (arith, within x, fewer), All-count_where rows (ground (arith, within x, fewer)))

abbrev pub map_option {ℓ} : {A : Type ℓ} → (A → A) → Option A → Option A
map_option f none = none
map_option f (some a) = some (f a)

-- Rows with a primary key: an update of one key's row changes what is read at that key alone.
module _ {ℓ} {R : Type ℓ} (key : R → ℕ) where
  abbrev pub at_key : ℕ → R → Bool
  at_key i r = key r == i

  pub find_row-update_at :
      (i id : ℕ) (p : R → Bool) (f : R → R) (rows : List R)
      → ((r : R) → key (f r) ≡ key r)
      → ((r : R) → p r ≡ true → key r ≡ id)
      → find_row (at_key i) (update_where p f rows) ≡ (
          if i == id
          then map_option (updated p f) (find_row (at_key i) rows)
          else find_row (at_key i) rows)
  find_row-update_at i id p f [] same only = ground arith
  find_row-update_at i id p f (x ∷ rows) same only =
      ground (arith, same x, only x, find_row-update_at i id p f rows same only)

  pub find_row-update_same :
      (id : ℕ) (p : R → Bool) (f : R → R) (rows : List R) (r : R)
      → ((x : R) → key (f x) ≡ key x)
      → find_row (at_key id) rows ≡ some r
      → find_row (at_key id) (update_where p f rows) ≡ some (updated p f r)
  find_row-update_same id p f rows r same h =
      find_row-update_where (at_key id) p f rows r (λ x. rw (same x)) h

  pub find_row-update_other :
      (i id : ℕ) (p : R → Bool) (f : R → R) (rows : List R)
      → ((r : R) → key (f r) ≡ key r)
      → ((r : R) → p r ≡ true → key r ≡ id)
      → i ≢ id
      → find_row (at_key i) (update_where p f rows) ≡ find_row (at_key i) rows
  find_row-update_other i id p f rows same only ne =
      ground (arith, find_row-update_at i id p f rows same only)

pub count-snoc {ℓ} :
    {R : Type ℓ} (p : R → Bool) (rows : List R) (row : R)
    → count_where p (rows ++ row ∷ []) ≡ count_where p rows + (if p row then 1 else 0)
count-snoc p [] row = omega arith
count-snoc p (r ∷ rows) row = omega (arith, count-snoc p rows row)
