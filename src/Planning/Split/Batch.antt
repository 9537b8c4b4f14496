-- ===== src/Planning/Split/Batch.antt =====
-- The two loops over a batch: what the rows that they return satisfy.
use not_so_simple_software_f.Prelude.{
  ℕ, suc, ◌+◌, ◌≤◌, ◌≡◌, inl, inr, refl, sym, ap, ◌∙◌, subst, Bool, true, false, not, ◌||◌, String,
  none, List, [], ◌∷◌, arith, ltb, ==_iff, ℤ, pos, negsuc, length, Bool-cases, if◌then◌else◌,
  if-cases,
}
use not_so_simple_software_f.Table.{count_where, exists_where, All}
use not_so_simple_software_f.Service.{ok, err, invalid}
use not_so_simple_software_f.Service.Laws.{>>=-eq-ok, refuse_if-eq-ok, ok-injective}
use not_so_simple_software_f.Planning.Keys.{Slug, lowered, trim_space, valid_slug, bounded_text}
use not_so_simple_software_f.Planning.Frozen.{same_text-eq}
use not_so_simple_software_f.Planning.Split.{
  PlanningStone, PlanningPebble, StoneInput, PebbleInput, max_stones, max_pebbles, title_or, placed,
  within, valid_ordinal, has_id, has_slug, has_ordinal, normalize_stones, stone_named, is_known,
  nullable, normalize_pebbles,
}

abbrev pub one_if : Bool → ℕ
one_if b = if b then 1 else 0

within-eq-ok :
    (ordinal : ℤ) (maximum : ℕ) (code : String) {n : ℕ}
    → within ordinal maximum code ≡ ok n
    → (1 ≤ n) × (n ≤ maximum)
within-eq-ok (negsuc m) maximum code h = cc
within-eq-ok (pos m) maximum code h =
    elim (if-cases (ltb m 1 || ltb maximum m) (err (invalid code)) (ok m) h) [
      | inl (bad, e) ↦ cc
      | inr (good, e) ↦
          let same : m ≡ _ = ok-injective e in
          (ground (arith, good, same), ground (arith, good, same))
    ]

valid_ordinal-eq-ok :
    (ordinal : ℤ) (index maximum : ℕ) (code : String) {n : ℕ}
    → valid_ordinal ordinal index maximum code ≡ ok n
    → (1 ≤ n) × (n ≤ maximum)
unfolding valid_ordinal
valid_ordinal-eq-ok ordinal index maximum code h =
    within-eq-ok (placed ordinal index) maximum code h

-- A row that no row before it matches, in front of rows that match no two of them.
distinct-step {ℓ} :
    {R : Type ℓ} (p : R → Bool) (r : R) (before : List R) (later : ℕ)
    → (p r ≡ true → exists_where p before ≡ false)
    → later + one_if (exists_where p (r ∷ before)) ≤ 1
    → one_if (p r) + later + one_if (exists_where p before) ≤ 1
distinct-step p r before later fresh h = elim (Bool-cases (p r)) [
  | inl here ↦
      let none_before = fresh here in
      let k : later + 1 ≤ 1 = ground (arith, h, here) in rw (here, none_before) (omega (arith, k))
  | inr other ↦
      let k : later + one_if (exists_where p before) ≤ 1 = ground (arith, h, other) in
      rw other (omega (arith, k))
]

abbrev pub InRange : ℕ → ℕ → Type 0
InRange maximum n = (1 ≤ n) × (n ≤ maximum)

pub record Stones (before stones : List PlanningStone) : Type 0 where
  pub ids :
      (id : Slug) → count_where (has_id id) stones + one_if (exists_where (has_id id) before) ≤ 1
  pub range : All (λ s. InRange max_stones s.ordinal) stones

one_if-le : (b : Bool) → 0 + one_if b ≤ 1
one_if-le true = omega arith
one_if-le false = omega arith

pub normalize_stones-Stones :
    (index : ℕ) (before : List PlanningStone) (input : List StoneInput) {out : List PlanningStone}
    → normalize_stones index before input ≡ ok out
    → Stones before out
unfolding normalize_stones
normalize_stones-Stones index before [] h =
    subst (Stones before) (ok-injective h) (record { ids = λ id. one_if-le _; range = tt })
normalize_stones-Stones index before (stone ∷ rest) h =
    let (id, _, h1) = >>=-eq-ok (valid_slug stone.id "invalid_planning_stone_id") _ h in
    let (fresh, h2) = refuse_if-eq-ok (exists_where (has_id id) before) _ _ h1 in
    let (title, _, h3) =
      >>=-eq-ok (bounded_text stone.title 200 "invalid_planning_stone_title") _ h2 in
    let (statement, _, h4) =
      >>=-eq-ok (bounded_text stone.statement 4096 "invalid_planning_stone_statement") _ h3 in
    let (ordinal, at, h5) =
      >>=-eq-ok (valid_ordinal stone.ordinal index max_stones "invalid_planning_stone_ordinal") _
        h4 in
    let s : PlanningStone = record {
      id = id;
      ordinal = ordinal;
      title = title_or title id;
      statement = statement;
    } in
    let (later, done, h6) = >>=-eq-ok (normalize_stones (suc index) (s ∷ before) rest) _ h5 in
    let ih = normalize_stones-Stones (suc index) (s ∷ before) rest done in
    subst (Stones before) (ok-injective h6) (record {
      ids = λ key.
          distinct-step (has_id key) s before (count_where (has_id key) later)
            (λ same.
              ap (λ k. exists_where (has_id k) before) (sym (same_text-eq id key same)) ∙ fresh)
            (ih.ids key);
      range = (valid_ordinal-eq-ok stone.ordinal index max_stones _ at, ih.range);
    })

not-false : (b : Bool) → not b ≡ false → b ≡ true
not-false true h = refl
not-false false h = cc

pub record Pebbles (stones : List PlanningStone) (before pebbles : List PlanningPebble)
    : Type 0 where
  pub slugs :
      (slug : Slug)
      → count_where (has_slug slug) pebbles + one_if (exists_where (has_slug slug) before) ≤ 1
  pub ordinals :
      (n : ℕ)
      → count_where (has_ordinal n) pebbles + one_if (exists_where (has_ordinal n) before) ≤ 1
  pub range : All (λ p. InRange max_pebbles p.ordinal) pebbles
  pub known : All (λ p. is_known stones p.stone_id ≡ true) pebbles

pub normalize_pebbles-Pebbles :
    (stones : List PlanningStone) (index : ℕ) (before : List PlanningPebble)
    (input : List PebbleInput) {out : List PlanningPebble}
    → normalize_pebbles stones index before input ≡ ok out
    → Pebbles stones before out
unfolding normalize_pebbles
normalize_pebbles-Pebbles stones index before [] h =
    subst (Pebbles stones before) (ok-injective h)
      (record { slugs = λ slug. one_if-le _; ordinals = λ n. one_if-le _; range = tt; known = tt })
normalize_pebbles-Pebbles stones index before (pebble ∷ rest) h =
    let (slug, _, h1) = >>=-eq-ok (valid_slug pebble.slug "invalid_planning_pebble_slug") _ h in
    let (_, h2) = refuse_if-eq-ok (ltb 64 (length slug)) _ _ h1 in
    let (fresh, h3) = refuse_if-eq-ok (exists_where (has_slug slug) before) _ _ h2 in
    let (ordinal, at, h4) =
      >>=-eq-ok (valid_ordinal pebble.ordinal index max_pebbles "invalid_planning_pebble_ordinal") _
        h3 in
    let (unused, h5) = refuse_if-eq-ok (exists_where (has_ordinal ordinal) before) _ _ h4 in
    let (title, _, h6) =
      >>=-eq-ok (bounded_text pebble.title 200 "invalid_planning_pebble_title") _ h5 in
    let (body, _, h7) =
      >>=-eq-ok (bounded_text pebble.body 8192 "invalid_planning_pebble_body") _ h6 in
    let stone = stone_named (lowered (trim_space pebble.stone_id)) in
    let (known, h8) = refuse_if-eq-ok (not (is_known stones stone)) _ _ h7 in
    let (work, _, h9) =
      >>=-eq-ok (bounded_text pebble.work_id 200 "invalid_planning_work_id") _ h8 in
    let p : PlanningPebble = record {
      ordinal = ordinal;
      slug = slug;
      title = title_or title slug;
      body = body;
      stone_id = stone;
      work_id = nullable work;
      built_at = none;
      built_ref = "";
    } in
    let (later, done, h10) =
      >>=-eq-ok (normalize_pebbles stones (suc index) (p ∷ before) rest) _ h9 in
    let ih = normalize_pebbles-Pebbles stones (suc index) (p ∷ before) rest done in
    subst (Pebbles stones before) (ok-injective h10) (record {
      slugs = λ key.
          distinct-step (has_slug key) p before (count_where (has_slug key) later)
            (λ same.
              ap (λ k. exists_where (has_slug k) before) (sym (same_text-eq slug key same)) ∙ fresh)
            (ih.slugs key);
      ordinals = λ key.
          distinct-step (has_ordinal key) p before (count_where (has_ordinal key) later)
            (λ same.
              ap (λ k. exists_where (has_ordinal k) before) (sym ((==_iff ordinal key).0 same))
              ∙ unused)
            (ih.ordinals key);
      range = (valid_ordinal-eq-ok pebble.ordinal index max_pebbles _ at, ih.range);
      known = (not-false _ known, ih.known);
    })
