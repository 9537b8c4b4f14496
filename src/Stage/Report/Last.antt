-- ===== src/Stage/Report/Last.antt =====
-- The last heading opens the report.
use not_so_simple_software_f.Prelude.{
  ◌≡◌, refl, ap, ◌∙◌, true, false, String, Option, none, some, List, [], ◌∷◌, ◌++◌, if◌then◌else◌,
}
use not_so_simple_software_f.Table.{All}
use not_so_simple_software_f.Cron.Text.{split}
use not_so_simple_software_f.Review.{newline}
use not_so_simple_software_f.Stage.Report.{
  is_heading, after_heading, read_rows, rows_of, parse_stage_report_checks,
}

-- No line is a heading.
abbrev pub NoHeading : List String → Type 0
NoHeading lines = All (λ line. is_heading line ≡ false) lines

after_heading-NoHeading :
    (start : Option (List String)) (lines : List String)
    → NoHeading lines
    → after_heading start lines ≡ start
unfolding after_heading
after_heading-NoHeading start [] none_left = refl
after_heading-NoHeading start (line ∷ rest) none_left =
    rw none_left.0 (after_heading-NoHeading start rest none_left.1)

after_heading-last :
    (start : Option (List String)) (before : List String) (line : String) (after : List String)
    → is_heading line ≡ true
    → NoHeading after
    → after_heading start (before ++ line ∷ after) ≡ some after
unfolding after_heading
after_heading-last start [] line after is none_left =
    rw (after_heading, is) (after_heading-NoHeading (some after) after none_left)
after_heading-last start (x ∷ before) line after is none_left =
    after_heading-last (if is_heading x then some (before ++ line ∷ after) else start) before line
      after is none_left

-- A report is read from the lines after the last heading alone: an earlier report in the same result, and
-- whatever stands around it, adds nothing and takes nothing away.
pub parse_stage_report_checks-last :
    (result : String) (before : List String) (line : String) (after : List String)
    → split newline result ≡ before ++ line ∷ after
    → is_heading line ≡ true
    → NoHeading after
    → parse_stage_report_checks result ≡ read_rows [] after
unfolding parse_stage_report_checks
parse_stage_report_checks-last result before line after lines is none_left =
    ap (λ l. rows_of (after_heading none l)) lines
    ∙ ap rows_of (after_heading-last none before line after is none_left)
