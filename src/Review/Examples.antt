-- ===== src/Review/Examples.antt =====
-- Verdicts at concrete results.
use not_so_simple_software_f.Prelude.{◌≡◌, refl, ◌++◌, String, some, [], ◌∷◌}
use not_so_simple_software_f.Cron.Text.{split}
use not_so_simple_software_f.Planning.Keys.{trim_space, trim_left, trim_right, drop_space, lowered}
use not_so_simple_software_f.Store.Events.{is_space}
use not_so_simple_software_f.Store.States.{verdict_none, approve}
use not_so_simple_software_f.Review.{
  after_prefix, candidate, line_verdict, read_lines, newline, parse_review_verdict,
}
use not_so_simple_software_f.Review.Last.{Silent, parse_review_verdict-last}

approved : parse_review_verdict "FACTORY-VERDICT: Approve" ≡ approve
unfolding parse_review_verdict read_lines line_verdict after_prefix candidate lowered trim_space
    trim_left trim_right drop_space is_space split
approved = refl

-- A misspelled verdict.
mistyped : parse_review_verdict "FACTORY-VERDICT: aprove" ≡ verdict_none
unfolding parse_review_verdict read_lines line_verdict after_prefix candidate lowered trim_space
    trim_left trim_right drop_space is_space split
mistyped = refl

-- "FACTORY-VERDICT: approve", then "FACTORY-VERDICT: no", then a line without the marker.
abbrev taken_back : String
taken_back = "FACTORY-VERDICT: approve\nFACTORY-VERDICT: no\nDone."

taken_back_lines :
    split newline taken_back
    ≡ ("FACTORY-VERDICT: approve" ∷ []) ++ "FACTORY-VERDICT: no" ∷ ("Done." ∷ [])
unfolding split
taken_back_lines = refl

says_nothing : line_verdict "FACTORY-VERDICT: no" ≡ some verdict_none
unfolding line_verdict after_prefix candidate lowered trim_space trim_left trim_right drop_space
    is_space
says_nothing = refl

done-Silent : Silent ("Done." ∷ [])
unfolding line_verdict after_prefix trim_space trim_left trim_right drop_space is_space
done-Silent = (refl, tt)

parse_review_verdict-last_example : parse_review_verdict taken_back ≡ verdict_none
parse_review_verdict-last_example =
    parse_review_verdict-last taken_back ("FACTORY-VERDICT: approve" ∷ []) "FACTORY-VERDICT: no"
      ("Done." ∷ []) verdict_none taken_back_lines says_nothing done-Silent
