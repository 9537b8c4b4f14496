-- ===== src/Stage/Examples.antt =====
-- A report that is read, and a stage that takes its model from its Pipeline.
use not_so_simple_software_f.Prelude.{◌≡◌, refl, ◌≤◌, String, [], ◌∷◌, map, length, arith}
use not_so_simple_software_f.Table.{All}
use not_so_simple_software_f.Cron.Text.{split}
use not_so_simple_software_f.Planning.Keys.{trim_space, trim_left, trim_right, drop_space, lowered}
use not_so_simple_software_f.Store.Events.{is_space}
use not_so_simple_software_f.Review.{after_prefix, newline}
use not_so_simple_software_f.Stage.{
  StageExecution, StageDefaults, resolve_stage_execution, first_non_empty,
}
use not_so_simple_software_f.Stage.Precedence.{Counts, resolve_stage_execution-Counts}
use not_so_simple_software_f.Stage.Report.{
  Check, passed, failed, not_run, agent_reported, max_checks, is_heading, folded, read_rows,
  list_item, item_after, cut_last, trim_marks_left, trim_marks_right, state_of, parse_state,
  bounded_report_field, check_by, parse_check, after_heading, parse_stage_report_checks,
}
use not_so_simple_software_f.Stage.Report.Bounds.{Sound, parse_stage_report_checks-few}
use not_so_simple_software_f.Stage.Report.Join.{has_dash}
use not_so_simple_software_f.Stage.Report.Last.{parse_stage_report_checks-last}
use not_so_simple_software_f.Stage.Report.Rows.{Plain, row, parse_stage_report_checks-rows}

abbrev claim : String → Check
claim name = record { name = name; source = agent_reported; state = passed }

abbrev go_test : Check
go_test = claim "go test ./..."

abbrev lint : Check
lint = record (claim "npm run lint") { state = not_run }

abbrev report : String
report = "Done.\nVerification:\n- go test ./... - passed\n- npm run lint - not-run"

report_lines : split newline report ≡ "Done." ∷ "Verification:" ∷ map row (go_test ∷ lint ∷ [])
unfolding split
report_lines = refl

go_test-Plain : Plain go_test
unfolding trim_right drop_space is_space has_dash
go_test-Plain = record { starts = refl; ends = refl; dashes = refl; short = refl; source = refl }

lint-Plain : Plain lint
unfolding trim_right drop_space is_space has_dash
lint-Plain = record { starts = refl; ends = refl; dashes = refl; short = refl; source = refl }

parse_stage_report_checks-rows_example : parse_stage_report_checks report ≡ go_test ∷ lint ∷ []
unfolding is_heading folded trim_space trim_left trim_right drop_space is_space
parse_stage_report_checks-rows_example =
    parse_stage_report_checks-rows report ("Done." ∷ []) "Verification:" (go_test ∷ lint ∷ [])
      report_lines refl (go_test-Plain, (lint-Plain, tt)) (omega arith)

-- A command with dashes, a wide dash, a row that names no state, and prose that ends the block.
abbrev rough : String
rough = "Verification:\n* go test -run A — `Failed`.\n- lint - maybe\n\nVerified.\n- late - passed"

rough_read :
    parse_stage_report_checks rough
    ≡ record { name = "go test -run A"; source = agent_reported; state = failed } ∷ []
unfolding parse_stage_report_checks after_heading split is_heading folded trim_space trim_left
    trim_right drop_space is_space read_rows list_item item_after after_prefix parse_check check_by
    cut_last parse_state trim_marks_left trim_marks_right state_of lowered bounded_report_field
rough_read = refl

-- The later of two reports counts.
abbrev twice : String
twice = "Verification:\n- a - failed\n verification: \n- a - passed"

parse_stage_report_checks-last_example :
    parse_stage_report_checks twice ≡ read_rows [] ("- a - passed" ∷ [])
unfolding split is_heading folded trim_space trim_left trim_right drop_space is_space
parse_stage_report_checks-last_example =
    parse_stage_report_checks-last twice ("Verification:" ∷ "- a - failed" ∷ []) " verification: "
      ("- a - passed" ∷ []) refl refl (refl, tt)

parse_stage_report_checks-few_example :
    (length (parse_stage_report_checks rough) ≤ max_checks)
    × All Sound (parse_stage_report_checks rough)
parse_stage_report_checks-few_example = parse_stage_report_checks-few rough

abbrev nothing : StageExecution
nothing = record { model = ""; effort = "" }

abbrev from_pipeline : StageExecution
from_pipeline = record { model = "opus"; effort = "" }

abbrev floor : StageDefaults
floor = record { model = "haiku"; effort = "high" }

resolved :
    resolve_stage_execution nothing from_pipeline floor ≡ record { model = "opus"; effort = "high" }
unfolding resolve_stage_execution first_non_empty
resolved = refl

resolve_stage_execution-Counts_example :
    Counts (resolve_stage_execution nothing from_pipeline floor).model ("" ∷ "opus" ∷ "haiku" ∷ [])
    × Counts (resolve_stage_execution nothing from_pipeline floor).effort ("" ∷ "" ∷ "high" ∷ [])
resolve_stage_execution-Counts_example = resolve_stage_execution-Counts nothing from_pipeline floor
