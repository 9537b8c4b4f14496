-- ===== src/Cron/Field.antt =====
-- One field of a cron expression (parseCronField, parseCronValue, cronMonths, cronWeekdays in
-- factory/internal/controlplane/schedule_cron.go). The message of an error is left out.
pub mod Marks
pub mod Laws
pub mod Selection
use not_so_simple_software_f.Prelude.{
  ℕ, zero, suc, ◌+◌, ◌-◌, Bool, true, false, ◌&&◌, ◌||◌, String, Option, none, some, List, [], ◌∷◌,
  ltb, leb, ◌==◌, ℤ, pos, negsuc, set, get_or, replicate, length, if◌then◌else◌,
}
use Prim.Native.Char.{code}
use not_so_simple_software_f.Cron.Text.{
  has_prefix, contains, split, Halves, cut, is_empty, atoi, is_upper, int_limit,
}

-- A value, an error, or a panic (an index out of range).
pub data Parsed {ℓ} (A : Type ℓ) : Type ℓ where
  refused : Parsed A
  panicked : Parsed A
  parsed : A → Parsed A

module _ {ℓ κ} {A : Type ℓ} {B : Type κ} where
  infixl 5 ◌>>=◌
  abbrev pub ◌>>=◌ : Parsed A → (A → Parsed B) → Parsed B
  refused >>= next = refused
  panicked >>= next = panicked
  parsed a >>= next = next a

-- A table of names; a field without names has the empty one.
abbrev pub Names : Type 0
Names = List (String × ℕ)

abbrev pub months : Names
months =
    ("JAN", 1)
    ∷ ("FEB", 2)
    ∷ ("MAR", 3)
    ∷ ("APR", 4)
    ∷ ("MAY", 5)
    ∷ ("JUN", 6)
    ∷ ("JUL", 7)
    ∷ ("AUG", 8)
    ∷ ("SEP", 9)
    ∷ ("OCT", 10)
    ∷ ("NOV", 11)
    ∷ ("DEC", 12)
    ∷ []

abbrev pub weekdays : Names
weekdays =
    ("SUN", 0) ∷ ("MON", 1) ∷ ("TUE", 2) ∷ ("WED", 3) ∷ ("THU", 4) ∷ ("FRI", 5) ∷ ("SAT", 6) ∷ []

abbrev pub lookup : String → Names → Option ℕ
lookup value [] = none
lookup value ((name, n) ∷ rest) =
    let later = lookup value rest in if is_upper value name then some n else later

abbrev pub in_range : ℕ → ℕ → Option ℤ → Parsed ℕ
in_range minimum maximum none = refused
in_range minimum maximum (some (negsuc n)) = refused
in_range minimum maximum (some (pos n)) =
    if ltb n minimum || ltb maximum n then refused else parsed n

unfoldable pub named_or : Option ℕ → Parsed ℕ → Parsed ℕ
named_or none number = number
named_or (some n) number = parsed n

unfoldable pub parse_cron_value : Names → ℕ → ℕ → String → Parsed ℕ
unfolding named_or
parse_cron_value names minimum maximum value =
    named_or (lookup value names) (in_range minimum maximum (atoi value))

-- The values that one item of a list walks over.
pub record Item : Type 0 where
  pub start : ℕ
  pub end : ℕ
  pub step : ℕ

abbrev pub at_least_one : Option ℤ → Parsed ℕ
at_least_one none = refused
at_least_one (some (negsuc n)) = refused
at_least_one (some (pos n)) = if ltb n 1 then refused else parsed n

-- `parsed < 1` and the two checks before it.
unfoldable pub parse_step : Halves → Parsed ℕ
parse_step halves =
    if halves.found
    then if is_empty halves.after || contains b'/' halves.after
      then refused
      else at_least_one (atoi halves.after)
    else parsed 1

unfoldable pub parse_range : Names → ℕ → ℕ → ℕ → Halves → Parsed Item
parse_range names minimum maximum step halves =
    if is_empty halves.before || is_empty halves.after || contains b'-' halves.after
    then refused
    else do
      start ← parse_cron_value names minimum maximum halves.before
      end ← parse_cron_value names minimum maximum halves.after
      if ltb end start then refused else parsed (record { start = start; end = end; step = step })

abbrev pub is_star : String → Bool
is_star String.[] = false
is_star (String.◌∷◌ x text) = code x == b'*' && is_empty text

-- The switch on the base of an item.
unfoldable pub parse_base : Names → ℕ → ℕ → String → Bool → ℕ → Parsed Item
unfolding parse_range
parse_base names minimum maximum base has_step step =
    if is_star base
    then parsed (record { start = minimum; end = maximum; step = step })
    else if contains b'-' base
    then parse_range names minimum maximum step (cut b'-' base)
    else do
      value ← parse_cron_value names minimum maximum base
      parsed (record { start = value; end = if has_step then maximum else value; step = step })

unfoldable pub parse_item : Names → ℕ → ℕ → String → Parsed Item
parse_item names minimum maximum item = if is_empty item then refused else do
  step ← parse_step (cut b'/' item)
  parse_base names minimum maximum (cut b'/' item).before (cut b'/' item).found step

-- Where a value is kept: 7 is Sunday too.
abbrev pub slot : Bool → ℕ → ℕ
slot sunday_seven candidate = if sunday_seven && candidate == 7 then 0 else candidate

-- The loop over the candidates, with fuel for each of them. An index past the end of the array panics.
-- `candidate += step` wraps around at 2^63 to
-- a negative number, which does not exceed the end either: the next turn indexes the array with it.
unfoldable pub mark : Bool → ℕ → ℕ → ℕ → ℕ → List Bool → Parsed (List Bool)
mark sunday_seven zero end step candidate allowed = parsed allowed
mark sunday_seven (suc fuel) end step candidate allowed =
    let rest =
      mark sunday_seven fuel end step (candidate + step)
        (set allowed (slot sunday_seven candidate) true) in
    if ltb end candidate
    then parsed allowed
    else if leb (length allowed) (slot sunday_seven candidate)
    then panicked
    else if leb int_limit (candidate + step)
    then panicked
    else rest

unfoldable pub mark_item : Bool → Item → List Bool → Parsed (List Bool)
mark_item sunday_seven item allowed =
    mark sunday_seven (suc item.end - item.start) item.end item.step item.start allowed

-- The loop over the items of a list.
unfoldable pub mark_items : Names → ℕ → ℕ → Bool → List String → List Bool → Parsed (List Bool)
mark_items names minimum maximum sunday_seven [] allowed = parsed allowed
mark_items names minimum maximum sunday_seven (text ∷ rest) allowed = do
  item ← parse_item names minimum maximum text
  marked ← mark_item sunday_seven item allowed
  mark_items names minimum maximum sunday_seven rest marked

pub record CronField : Type 0 where
  pub allowed : List Bool
  pub wildcard : Bool

-- Some value from `candidate` on, `count` of them, is allowed.
abbrev pub selects_any : ℕ → ℕ → List Bool → Bool
selects_any zero candidate allowed = false
selects_any (suc count) candidate allowed =
    get_or allowed candidate false || selects_any count (suc candidate) allowed

abbrev if_any : Bool → CronField → Parsed CronField
if_any true field = parsed field
if_any false field = refused

unfoldable pub parse_cron_field : Names → ℕ → ℕ → Bool → String → Parsed CronField
parse_cron_field names minimum maximum sunday_seven value = if is_empty value then refused else do
  allowed ←
      mark_items names minimum maximum sunday_seven (split b',' value)
        (replicate (suc maximum) false)
  if_any (selects_any (suc maximum - minimum) minimum allowed)
      (record { allowed = allowed; wildcard = has_prefix b'*' value })
