-- ===== src/Planning/Split/Sorting.antt =====
-- The sort of a split: it is in order, and has the same rows.
use not_so_simple_software_f.Prelude.{
  ℕ, ◌+◌, ◌≤◌, ◌≡◌, inl, inr, refl, ap, ◌∙◌, Bool, true, List, [], ◌∷◌, arith, leb, leb→le,
  Bool-cases, if◌then◌else◌,
}
use not_so_simple_software_f.Table.{count_where, exists_where, All}
use not_so_simple_software_f.Table.Laws.{All-map}
use not_so_simple_software_f.Planning.Split.{place, sort_by}

module _ {ℓ} {R : Type ℓ} (key : R → ℕ) where
  -- Each row is at most the ones after it.
  abbrev pub Sorted : List R → Type ℓ
  Sorted [] = Unit
  Sorted (r ∷ rest) = All (λ x. key r ≤ key x) rest × Sorted rest

  All-place {κ} :
      (P : R → Type κ) (r : R) (rows : List R) → P r → All P rows → All P (place key r rows)
  unfolding place
  All-place P r [] p h = (p, tt)
  All-place P r (x ∷ rest) p h = elim (Bool-cases (leb (key r) (key x))) [
    | inl first ↦ rw (place, first) (p, h)
    | inr later ↦ rw (place, later) (h.0, All-place P r rest p h.1)
  ]

  pub All-sort_by {κ} : (P : R → Type κ) (rows : List R) → All P rows → All P (sort_by key rows)
  unfolding sort_by
  All-sort_by P [] h = tt
  All-sort_by P (r ∷ rest) h = All-place P r (sort_by key rest) h.0 (All-sort_by P rest h.1)

  Sorted-place : (r : R) (rows : List R) → Sorted rows → Sorted (place key r rows)
  unfolding place
  Sorted-place r [] h = (tt, tt)
  Sorted-place r (x ∷ rest) h = elim (Bool-cases (leb (key r) (key x))) [
    | inl first ↦
        let low : key r ≤ key x = leb→le _ _ first in
        rw (place, first) ((low, All-map _ _ rest h.0 (λ y high. omega (arith, low, high))), h)
    | inr later ↦
        let high : key x ≤ key r = ground (arith, later) in
        rw (place, later) (All-place (λ y. key x ≤ key y) r rest high h.0, Sorted-place r rest h.1)
  ]

  pub Sorted-sort_by : (rows : List R) → Sorted (sort_by key rows)
  unfolding sort_by
  Sorted-sort_by [] = tt
  Sorted-sort_by (r ∷ rest) = Sorted-place r (sort_by key rest) (Sorted-sort_by rest)

  count-place :
      (p : R → Bool) (r : R) (rows : List R)
      → count_where p (place key r rows) ≡ (if p r then 1 else 0) + count_where p rows
  unfolding place
  count-place p r [] = refl
  count-place p r (x ∷ rest) = elim (Bool-cases (leb (key r) (key x))) [
    | inl first ↦ rw (place, first) refl
    | inr later ↦ rw (place, later) (omega (arith, count-place p r rest))
  ]

  pub count-sort_by :
      (p : R → Bool) (rows : List R) → count_where p (sort_by key rows) ≡ count_where p rows
  unfolding sort_by
  count-sort_by p [] = refl
  count-sort_by p (r ∷ rest) =
      omega (arith, count-place p r (sort_by key rest), count-sort_by p rest)

  exists-place :
      (p : R → Bool) (r : R) (rows : List R)
      → exists_where p (place key r rows) ≡ exists_where p (r ∷ rows)
  unfolding place
  exists-place p r [] = refl
  exists-place p r (x ∷ rest) = elim (Bool-cases (leb (key r) (key x))) [
    | inl first ↦ rw (place, first) refl
    | inr later ↦ rw (place, later) (swapped (exists-place p r rest))
  ]
    where
      swapped :
          exists_where p (place key r rest) ≡ exists_where p (r ∷ rest)
          → exists_where p (x ∷ place key r rest) ≡ exists_where p (r ∷ x ∷ rest)
      swapped h = ground (arith, h)

  pub exists-sort_by :
      (p : R → Bool) (rows : List R) → exists_where p (sort_by key rows) ≡ exists_where p rows
  unfolding sort_by
  exists-sort_by p [] = refl
  exists-sort_by p (r ∷ rest) =
      exists-place p r (sort_by key rest)
      ∙ ap (λ b. if p r then true else b) (exists-sort_by p rest)
