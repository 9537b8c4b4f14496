-- ===== src/Planning/Split.antt =====
-- The split of a frozen checkpoint into stones and pebbles: normalizePlanningSplit and its bounds.
pub mod Sorting
pub mod Batch
pub mod Normal
use not_so_simple_software_f.Prelude.{
  ℕ, zero, suc, ◌+◌, Bool, true, false, not, ◌&&◌, ◌||◌, String, Option, none, some, List, [], ◌∷◌,
  ltb, leb, ◌==◌, ℤ, pos, negsuc, length, map, if◌then◌else◌,
}
use not_so_simple_software_f.Table.{exists_where}
use not_so_simple_software_f.Cron.Text.{is_empty}
use not_so_simple_software_f.Service.{Result, ok, err, invalid, refuse_if, ◌>>=◌, ◌>>◌}
use not_so_simple_software_f.Planning.Keys.{
  Slug, same_text, lowered, trim_space, valid_slug, bounded_text,
}

abbrev pub max_stones : ℕ
max_stones = 50

abbrev pub max_pebbles : ℕ
max_pebbles = 100

-- A title, or the name that stands in for an empty one.
pub data Title : Type 0 where
  titled : String → Title
  named : Slug → Title

abbrev pub title_or : String → Slug → Title
title_or title name = if is_empty title then named name else titled title

pub record PlanningStone : Type 0 where
  pub id : Slug
  pub ordinal : ℕ
  pub title : Title
  pub statement : String

pub record PlanningPebble : Type 0 where
  pub ordinal : ℕ
  pub slug : Slug
  pub title : Title
  pub body : String
  pub stone_id : Option Slug
  pub work_id : Option String
  pub built_at : Option ℕ
  pub built_ref : String

-- A stone and a pebble, as they are sent.
pub record StoneInput : Type 0 where
  pub id : String
  pub ordinal : ℤ
  pub title : String
  pub statement : String

pub record PebbleInput : Type 0 where
  pub ordinal : ℤ
  pub slug : String
  pub title : String
  pub body : String
  pub stone_id : String
  pub work_id : String

pub record SavePlanningPebblesRequest : Type 0 where
  pub stones : List StoneInput
  pub pebbles : List PebbleInput

-- An ordinal of 0 is the place in the batch.
abbrev pub placed : ℤ → ℕ → ℤ
placed (pos zero) index = pos (index + 1)
placed ordinal index = ordinal

abbrev pub within : ℤ → ℕ → String → Result ℕ
within (negsuc n) maximum code = err (invalid code)
within (pos n) maximum code = if ltb n 1 || ltb maximum n then err (invalid code) else ok n

unfoldable pub valid_ordinal : ℤ → ℕ → ℕ → String → Result ℕ
valid_ordinal ordinal index maximum code = within (placed ordinal index) maximum code

abbrev pub has_id : Slug → PlanningStone → Bool
has_id id s = same_text s.id id

abbrev pub has_slug : Slug → PlanningPebble → Bool
has_slug slug p = same_text p.slug slug

abbrev pub has_ordinal : ℕ → PlanningPebble → Bool
has_ordinal ordinal p = p.ordinal == ordinal

-- The loop over the stones, with those before it.
unfoldable pub normalize_stones :
    ℕ → List PlanningStone → List StoneInput → Result (List PlanningStone)
normalize_stones index before [] = ok []
normalize_stones index before (stone ∷ rest) = do
  id ← valid_slug stone.id "invalid_planning_stone_id"
  refuse_if (exists_where (has_id id) before) (invalid "duplicate_planning_stone_id")
  title ← bounded_text stone.title 200 "invalid_planning_stone_title"
  statement ← bounded_text stone.statement 4096 "invalid_planning_stone_statement"
  ordinal ← valid_ordinal stone.ordinal index max_stones "invalid_planning_stone_ordinal"
  let s : PlanningStone = record {
    id = id;
    ordinal = ordinal;
    title = title_or title id;
    statement = statement;
  }
  later ← normalize_stones (suc index) (s ∷ before) rest
  ok (s ∷ later)

-- A pebble in no stone, or in one of the batch.
abbrev pub stone_named : Slug → Option Slug
stone_named [] = none
stone_named (c ∷ rest) = some (c ∷ rest)

abbrev pub is_known : List PlanningStone → Option Slug → Bool
is_known stones none = true
is_known stones (some id) = exists_where (has_id id) stones

-- nullablePlanningText
abbrev pub nullable : String → Option String
nullable text = if is_empty text then none else some text

-- The loop over the pebbles, with those before it.
unfoldable pub normalize_pebbles :
    List PlanningStone → ℕ → List PlanningPebble → List PebbleInput → Result (List PlanningPebble)
normalize_pebbles stones index before [] = ok []
normalize_pebbles stones index before (pebble ∷ rest) = do
  slug ← valid_slug pebble.slug "invalid_planning_pebble_slug"
  refuse_if (ltb 64 (length slug)) (invalid "invalid_planning_pebble_slug")
  refuse_if (exists_where (has_slug slug) before) (invalid "duplicate_planning_pebble_slug")
  ordinal ← valid_ordinal pebble.ordinal index max_pebbles "invalid_planning_pebble_ordinal"
  refuse_if (exists_where (has_ordinal ordinal) before)
      (invalid "duplicate_planning_pebble_ordinal")
  title ← bounded_text pebble.title 200 "invalid_planning_pebble_title"
  body ← bounded_text pebble.body 8192 "invalid_planning_pebble_body"
  let stone = stone_named (lowered (trim_space pebble.stone_id))
  refuse_if (not (is_known stones stone)) (invalid "unknown_planning_stone")
  work ← bounded_text pebble.work_id 200 "invalid_planning_work_id"
  let p : PlanningPebble = record {
    ordinal = ordinal;
    slug = slug;
    title = title_or title slug;
    body = body;
    stone_id = stone;
    work_id = nullable work;
    built_at = none;
    built_ref = "";
  }
  later ← normalize_pebbles stones (suc index) (p ∷ before) rest
  ok (p ∷ later)

-- sort.SliceStable by a number: rows with the same number keep their order.
module _ {ℓ} {R : Type ℓ} (key : R → ℕ) where
  unfoldable pub place : R → List R → List R
  place r [] = r ∷ []
  place r (x ∷ rest) =
      let later = place r rest in if leb (key r) (key x) then r ∷ x ∷ rest else x ∷ later

  unfoldable pub sort_by : List R → List R
  sort_by [] = []
  sort_by (r ∷ rest) = place r (sort_by rest)

pub record Split : Type 0 where
  pub stones : List PlanningStone
  pub pebbles : List PlanningPebble

unfoldable pub normalize_planning_split : SavePlanningPebblesRequest → Result Split
normalize_planning_split input = do
  refuse_if (ltb max_stones (length input.stones)) (invalid "invalid_planning_stones")
  refuse_if (ltb max_pebbles (length input.pebbles)) (invalid "invalid_planning_pebbles")
  stones ← normalize_stones 0 [] input.stones
  pebbles ← normalize_pebbles stones 0 [] input.pebbles
  ok (record {
    stones = sort_by (λ (s : PlanningStone). s.ordinal) stones;
    pebbles = sort_by (λ (p : PlanningPebble). p.ordinal) pebbles;
  })
