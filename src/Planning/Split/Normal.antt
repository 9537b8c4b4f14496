-- ===== src/Planning/Split/Normal.antt =====
-- What a split that was not refused satisfies.
use not_so_simple_software_f.Prelude.{
  ℕ, ◌≤◌, ◌≡◌, refl, ◌∙◌, subst, true, Option, none, some, List, [], arith, ltb, length,
}
use not_so_simple_software_f.Table.{count_where, All}
use not_so_simple_software_f.Table.Laws.{All-map}
use not_so_simple_software_f.Service.{ok}
use not_so_simple_software_f.Service.Laws.{>>=-eq-ok, refuse_if-eq-ok, ok-injective}
use not_so_simple_software_f.Planning.Keys.{Slug}
use not_so_simple_software_f.Planning.Split.{
  PlanningStone, PlanningPebble, SavePlanningPebblesRequest, Split, max_stones, max_pebbles, has_id,
  has_slug, has_ordinal, normalize_stones, is_known, normalize_pebbles, sort_by,
  normalize_planning_split,
}
use not_so_simple_software_f.Planning.Split.Sorting.{
  Sorted, All-sort_by, Sorted-sort_by, count-sort_by, exists-sort_by,
}
use not_so_simple_software_f.Planning.Split.Batch.{
  InRange, Stones, Pebbles, normalize_stones-Stones, normalize_pebbles-Pebbles,
}

is_known-sorted :
    (stones : List PlanningStone) (id : Option Slug)
    → is_known stones id ≡ true
    → is_known (sort_by (λ (s : PlanningStone). s.ordinal) stones) id ≡ true
is_known-sorted stones none h = refl
is_known-sorted stones (some id) h =
    exists-sort_by (λ (s : PlanningStone). s.ordinal) (has_id id) stones ∙ h

-- A split that may be written.
pub record Normal (split : Split) : Type 0 where
  pub ids : (id : Slug) → count_where (has_id id) split.stones ≤ 1
  pub slugs : (slug : Slug) → count_where (has_slug slug) split.pebbles ≤ 1
  pub ordinals : (n : ℕ) → count_where (has_ordinal n) split.pebbles ≤ 1
  pub stones_in_range : All (λ s. InRange max_stones s.ordinal) split.stones
  pub pebbles_in_range : All (λ p. InRange max_pebbles p.ordinal) split.pebbles
  pub known : All (λ p. is_known split.stones p.stone_id ≡ true) split.pebbles
  pub stones_in_order : Sorted (λ (s : PlanningStone). s.ordinal) split.stones
  pub pebbles_in_order : Sorted (λ (p : PlanningPebble). p.ordinal) split.pebbles

sorted-Normal :
    (stones : List PlanningStone) (pebbles : List PlanningPebble)
    → Stones [] stones
    → Pebbles stones [] pebbles
    → Normal (record {
      stones = sort_by (λ (s : PlanningStone). s.ordinal) stones;
      pebbles = sort_by (λ (p : PlanningPebble). p.ordinal) pebbles;
    })
sorted-Normal stones pebbles s p =
    let by_stone = λ (s : PlanningStone). s.ordinal in
    let by_pebble = λ (p : PlanningPebble). p.ordinal in
    record {
      ids = λ id. omega (arith, count-sort_by by_stone (has_id id) stones, s.ids id);
      slugs = λ slug. omega (arith, count-sort_by by_pebble (has_slug slug) pebbles, p.slugs slug);
      ordinals = λ n. omega (arith, count-sort_by by_pebble (has_ordinal n) pebbles, p.ordinals n);
      stones_in_range = All-sort_by by_stone _ stones s.range;
      pebbles_in_range = All-sort_by by_pebble _ pebbles p.range;
      known =
          All-sort_by by_pebble _ pebbles
            (All-map _ _ pebbles p.known (λ x h. is_known-sorted stones x.stone_id h));
      stones_in_order = Sorted-sort_by by_stone stones;
      pebbles_in_order = Sorted-sort_by by_pebble pebbles;
    }

-- A batch that is not refused has stones with different ids, pebbles with different slugs and different
-- ordinals, all ordinals in their range, every pebble in no stone or in one of the batch, and both lists
-- in the order of their ordinals.
pub normalize_planning_split-Normal :
    (input : SavePlanningPebblesRequest) (split : Split)
    → normalize_planning_split input ≡ ok split
    → Normal split
unfolding normalize_planning_split
normalize_planning_split-Normal input split h =
    let (_, h1) = refuse_if-eq-ok (ltb max_stones (length input.stones)) _ _ h in
    let (_, h2) = refuse_if-eq-ok (ltb max_pebbles (length input.pebbles)) _ _ h1 in
    let (stones, s, h3) = >>=-eq-ok (normalize_stones 0 [] input.stones) _ h2 in
    let (pebbles, p, h4) = >>=-eq-ok (normalize_pebbles stones 0 [] input.pebbles) _ h3 in
    subst Normal (ok-injective h4) (
      sorted-Normal stones pebbles (normalize_stones-Stones 0 [] input.stones s)
        (normalize_pebbles-Pebbles stones 0 [] input.pebbles p))
