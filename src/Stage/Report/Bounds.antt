-- ===== src/Stage/Report/Bounds.antt =====
-- What a report can claim is bounded.
use Prim.Native.Char.{len_utf8}
use Prim.Native.String.len.{cons}
use not_so_simple_software_f.Prelude.{
  ℕ, ◌-◌, ◌≤◌, ◌≡◌, inl, inr, refl, false, String, len, Option, none, some, List, [], ◌∷◌, ◌++◌,
  arith, leb, leb→le, length, length-append, Bool-cases, Option-cases,
}
use not_so_simple_software_f.Table.{All}
use not_so_simple_software_f.Cron.Text.{split, is_empty}
use not_so_simple_software_f.Planning.Keys.{trim_space}
use not_so_simple_software_f.Review.{newline}
use not_so_simple_software_f.Stage.Report.{
  Check, CheckState, Parts, max_checks, max_name_bytes, agent_reported, take_bytes,
  bounded_report_field, check_of, check_at, check_by, cut_last, parse_state, parse_check, add_check,
  read_rows, rows_of, list_item, separators, after_heading, parse_stage_report_checks,
}

-- A check whose name is within its limit, and which says that an agent reports it.
pub record Sound (check : Check) : Type 0 where
  pub short : len check.name ≤ max_name_bytes
  pub honest : check.source ≡ agent_reported

len-take_bytes : (n : ℕ) (text : String) → len (take_bytes n text) ≤ n
unfolding take_bytes
len-take_bytes n String.[] = omega arith
len-take_bytes n (String.◌∷◌ c text) = elim (Bool-cases (leb (len_utf8 c) n)) [
  | inl fits ↦
      let here : len_utf8 c ≤ n = leb→le _ _ fits in
      let bound = len-take_bytes (n - len_utf8 c) text in
      rw (take_bytes, fits) (omega (arith, cons c (take_bytes (n - len_utf8 c) text), here, bound))
  | inr over ↦ rw (take_bytes, over) (omega arith)
]

len-bounded_report_field :
    (value : String) (maximum : ℕ) → len (bounded_report_field value maximum) ≤ maximum
unfolding bounded_report_field
len-bounded_report_field value maximum = ground (arith, len-take_bytes maximum value)

abbrev AllSound : Option Check → Type 0
AllSound none = Unit
AllSound (some check) = Sound check

check_of-Sound : (state : Option CheckState) (name : String) → AllSound (check_of state name)
check_of-Sound none name = tt
check_of-Sound (some state) String.[] = tt
check_of-Sound (some state) (String.◌∷◌ c text) = record {
  short = len-bounded_report_field (String.◌∷◌ c text) max_name_bytes;
  honest = refl;
}

check_at-Sound : (parts : Option Parts) → AllSound (check_at parts)
check_at-Sound none = tt
check_at-Sound (some p) = check_of-Sound (parse_state p.after) (trim_space p.before)

first-Sound :
    (first later : Option Check)
    → AllSound first
    → AllSound later
    → AllSound (elim first [ some check ↦ some check | none ↦ later ])
first-Sound none later p q = q
first-Sound (some check) later p q = p

check_by-Sound : (separators : List String) (item : String) → AllSound (check_by separators item)
unfolding check_by
check_by-Sound [] item = tt
check_by-Sound (separator ∷ rest) item =
    first-Sound _ _ (check_at-Sound (cut_last separator item)) (check_by-Sound rest item)

parse_check-Sound : (item : String) → AllSound (parse_check item)
unfolding parse_check
parse_check-Sound item = check_by-Sound separators item

-- The checks so far.
record Bounded (checks : List Check) : Type 0 where
  few : length checks ≤ max_checks
  sound : All Sound checks

All-snoc {ℓ κ} :
    {A : Type ℓ} (P : A → Type κ) (xs : List A) (x : A) → All P xs → P x → All P (xs ++ x ∷ [])
All-snoc P [] x h k = (k, tt)
All-snoc P (y ∷ xs) x h k = (h.0, All-snoc P xs x h.1 k)

add_check-Bounded :
    (found : Option Check) (checks : List Check)
    → leb max_checks (length checks) ≡ false
    → AllSound found
    → Bounded checks
    → Bounded (add_check found checks)
add_check-Bounded none checks room sound h = h
add_check-Bounded (some check) checks room sound h = record {
  few = ground (arith, room, length-append checks (check ∷ []));
  sound = All-snoc Sound checks check h.sound sound;
}

read_rows-Bounded :
    (checks : List Check) (lines : List String) → Bounded checks → Bounded (read_rows checks lines)
unfolding read_rows
read_rows-Bounded checks [] h = h
read_rows-Bounded checks (line ∷ rest) h = elim (Bool-cases (is_empty (trim_space line))) [
  | inl blank ↦ rw (read_rows, blank) (read_rows-Bounded checks rest h)
  | inr text ↦ elim (Option-cases (list_item (trim_space line))) [
    | inl prose ↦ rw (read_rows, text, prose) h
    | inr (item, is) ↦ elim (Bool-cases (leb max_checks (length checks))) [
      | inl enough ↦ rw (read_rows, text, is, enough) h
      | inr room ↦
          rw (read_rows, text, is, room)
            (read_rows-Bounded (add_check (parse_check item) checks) rest
              (add_check-Bounded (parse_check item) checks room (parse_check-Sound item) h))
    ]
  ]
]

rows_of-Bounded : (rows : Option (List String)) → Bounded (rows_of rows)
rows_of-Bounded none = record { few = omega arith; sound = tt }
rows_of-Bounded (some rest) = read_rows-Bounded [] rest (record { few = omega arith; sound = tt })

-- Whatever an agent writes, its report claims at most 20 checks, each with a name of at most 200 bytes, and
-- each is marked as reported by the agent.
pub parse_stage_report_checks-few :
    (result : String)
    → (length (parse_stage_report_checks result) ≤ max_checks)
      × All Sound (parse_stage_report_checks result)
unfolding parse_stage_report_checks
parse_stage_report_checks-few result =
    let b = rows_of-Bounded (after_heading none (split newline result)) in (b.few, b.sound)
