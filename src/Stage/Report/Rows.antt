-- ===== src/Stage/Report/Rows.antt =====
-- A report that is written the way the prompt of a stage asks for is read back as it was meant.
use not_so_simple_software_f.Prelude.{
  ◌+◌, ◌≤◌, ◌≡◌, refl, sym, ap, ◌∙◌, true, false, String, len, Option, none, some, List, [], ◌∷◌,
  ◌++◌, map, arith, leb, length, length-append,
}
use mathlib.Core.List.{append-nil, append_assoc}
use not_so_simple_software_f.Table.{All}
use not_so_simple_software_f.Cron.Text.{split, is_empty}
use not_so_simple_software_f.Planning.Keys.{
  trim_space, trim_left, trim_right, drop_space, same_text, lowered,
}
use not_so_simple_software_f.Store.Events.{is_space}
use not_so_simple_software_f.Review.{newline, after_prefix}
use not_so_simple_software_f.Stage.Report.{
  Check, CheckState, passed, failed, not_run, agent_reported, max_checks, max_name_bytes,
  bounded_report_field, cut_last, check_of, check_at, check_by, parse_state, parse_check, read_rows,
  list_item, item_after, heading, is_heading, folded, state_of, trim_marks_left, trim_marks_right,
  parse_stage_report_checks,
}
use not_so_simple_software_f.Stage.Report.Join.{
  join, has_dash, starts_with_space, starts_with_dash, join-nil, is_empty-join, trim_right-join,
  trim_space-whole, starts-join, cut_last-join, cut_last-dashless,
}
use not_so_simple_software_f.Stage.Report.Last.{NoHeading, parse_stage_report_checks-last}

abbrev pub word : CheckState → String
word passed = "passed"
word failed = "failed"
word not_run = "not-run"

-- A row of the report, as the prompt shows it.
abbrev pub row : Check → String
row check = join "- " (join check.name (join " - " (word check.state)))

-- A name that a row can carry: it has a character, no space around it and no dash, and is short.
pub record Plain (check : Check) : Type 0 where
  pub starts : starts_with_space check.name ≡ false
  pub ends : trim_right check.name ≡ check.name
  pub dashes : has_dash check.name ≡ false
  pub short : leb (len check.name) max_name_bytes ≡ true
  pub source : check.source ≡ agent_reported

-- What follows the name.
abbrev tail : CheckState → String
tail state = join " - " (word state)

-- The four separators, tried on a row.
parse_state-word : (state : CheckState) → parse_state (word state) ≡ some state
unfolding parse_state trim_space trim_left trim_right drop_space is_space trim_marks_left
    trim_marks_right state_of lowered
parse_state-word passed = refl
parse_state-word failed = refl
parse_state-word not_run = refl

tail-dashes :
    (state : CheckState)
    → (cut_last " — " (tail state) ≡ none)
      × (cut_last " – " (tail state) ≡ none)
      × (cut_last " -- " (tail state) ≡ none)
      × (cut_last " - " (tail state) ≡ some (record { before = ""; after = word state }))
unfolding cut_last after_prefix
tail-dashes passed = (refl, refl, refl, refl)
tail-dashes failed = (refl, refl, refl, refl)
tail-dashes not_run = (refl, refl, refl, refl)

tail-ends :
    (state : CheckState)
    → (is_empty (tail state) ≡ false)
      × (starts_with_dash (tail state) ≡ false)
      × (trim_right (tail state) ≡ tail state)
unfolding trim_right drop_space is_space
tail-ends passed = (refl, refl, refl)
tail-ends failed = (refl, refl, refl)
tail-ends not_run = (refl, refl, refl)

Plain-some : (check : Check) → Plain check → is_empty check.name ≡ false
Plain-some check p = go check.name p.starts
  where
    go : (name : String) → starts_with_space name ≡ false → is_empty name ≡ false
    go String.[] h = cc
    go (String.◌∷◌ c name) h = refl

or_later : Option Check → Option Check → Option Check
or_later first later = elim first [ some check ↦ some check | none ↦ later ]

check_by-skip :
    (separator : String) (rest : List String) (item : String)
    → cut_last separator item ≡ none
    → check_by (separator ∷ rest) item ≡ check_by rest item
unfolding check_by or_later
check_by-skip separator rest item h = ap (λ p. or_later (check_at p) (check_by rest item)) h

check_by-take :
    (separator : String) (rest : List String) (item : String) {check : Check}
    → check_at (cut_last separator item) ≡ some check
    → check_by (separator ∷ rest) item ≡ some check
unfolding check_by or_later
check_by-take separator rest item h = ap (λ c. or_later c (check_by rest item)) h

-- A name and a state, as a check.
check_of-Plain : (check : Check) → Plain check → check_of (some check.state) check.name ≡ some check
unfolding bounded_report_field
check_of-Plain check p = rw (Plain-some check p, p.short, p.source) refl

parse_check-row :
    (check : Check) → Plain check → parse_check (join check.name (tail check.state)) ≡ some check
unfolding parse_check
parse_check-row check p =
    let (em, en, double, last) = tail-dashes check.state in
    let (_, clean, _) = tail-ends check.state in
    let item = join check.name (tail check.state) in
    let name : trim_space (join check.name "") ≡ check.name =
      ap trim_space (join-nil check.name) ∙ trim_space-whole check.name p.starts p.ends in
    check_by-skip " — " _ item
      (cut_last-dashless _ _ _ check.name (tail check.state) refl p.dashes clean em)
    ∙ check_by-skip " – " _ item
        (cut_last-dashless _ _ _ check.name (tail check.state) refl p.dashes clean en)
    ∙ check_by-skip " -- " _ item
        (cut_last-dashless _ _ _ check.name (tail check.state) refl p.dashes clean double)
    ∙ check_by-take " - " _ item (
        ap check_at (cut_last-join check.name (tail check.state) " - " _ _ last)
        ∙ ap (λ s. check_of s (trim_space (join check.name ""))) (parse_state-word check.state)
        ∙ ap (check_of (some check.state)) name
        ∙ check_of-Plain check p)

row-IsItem :
    (check : Check)
    → Plain check
    → (trim_space (row check) ≡ row check)
      × (list_item (row check) ≡ some (join check.name (tail check.state)))
unfolding list_item item_after after_prefix is_space
row-IsItem check p =
    let item = join check.name (tail check.state) in
    let (some_text, _, ends) = tail-ends check.state in
    let item_ends : trim_right item ≡ item =
      trim_right-join check.name (tail check.state) some_text ends in
    let item_some : is_empty item ≡ false = is_empty-join check.name (tail check.state) some_text in
    let item_starts : starts_with_space item ≡ false =
      starts-join check.name (tail check.state) (Plain-some check p) p.starts in
    (
      trim_space-whole (row check) refl (trim_right-join "- " item item_some item_ends),
      ap some (trim_space-whole item item_starts item_ends),
    )

read_rows-item :
    (done : List Check) (line : String) (rest : List String) {item : String} {check : Check}
    → trim_space line ≡ line
    → is_empty line ≡ false
    → list_item line ≡ some item
    → leb max_checks (length done) ≡ false
    → parse_check item ≡ some check
    → read_rows done (line ∷ rest) ≡ read_rows (done ++ check ∷ []) rest
unfolding read_rows
read_rows-item done line rest trimmed some_text is room parsed =
    let filled = ap is_empty trimmed ∙ some_text in
    let item_is = ap list_item trimmed ∙ is in rw (read_rows, filled, item_is, room, parsed) refl

-- The rows, read after some checks.
read_rows-rows :
    (done checks : List Check)
    → All Plain checks
    → length done + length checks ≤ max_checks
    → read_rows done (map row checks) ≡ done ++ checks
unfolding read_rows
read_rows-rows done [] plain few = sym (append-nil done)
read_rows-rows done (check ∷ rest) plain few =
    let (trimmed, is) = row-IsItem check plain.0 in
    let room : leb max_checks (length done) ≡ false = ground (arith, few) in
    read_rows-item done (row check) (map row rest) trimmed refl is room
      (parse_check-row check plain.0)
    ∙ read_rows-rows (done ++ check ∷ []) rest plain.1
        (omega (arith, few, length-append done (check ∷ [])))
    ∙ append_assoc done (check ∷ []) rest

rows-NoHeading : (checks : List Check) → All Plain checks → NoHeading (map row checks)
unfolding is_heading folded
rows-NoHeading [] plain = tt
rows-NoHeading (check ∷ rest) plain = (
  ap (λ line. same_text (folded line) (folded heading)) (row-IsItem check plain.0).0,
  rows-NoHeading rest plain.1,
)

-- When a result ends in a report as the prompt asks for it, a heading and then one row for each check, with
-- at most 20 checks whose names are short, trimmed and free of dashes, exactly these checks are read,
-- in this order, whatever stands before the heading.
pub parse_stage_report_checks-rows :
    (result : String) (before : List String) (line : String) (checks : List Check)
    → split newline result ≡ before ++ line ∷ map row checks
    → is_heading line ≡ true
    → All Plain checks
    → length checks ≤ max_checks
    → parse_stage_report_checks result ≡ checks
parse_stage_report_checks-rows result before line checks lines is plain few =
    parse_stage_report_checks-last result before line (map row checks) lines is
      (rows-NoHeading checks plain)
    ∙ read_rows-rows [] checks plain (omega (arith, few))
