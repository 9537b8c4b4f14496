-- ===== src/Review.antt =====
-- The verdict of a review, as it is read from the result of a stage (ParseReviewVerdict in
-- factory/internal/protocol/tasks.go).
pub mod Last
mod Examples
use Prim.Native.Char.{code}
use not_so_simple_software_f.Prelude.{
  ℕ, String, Option, none, some, List, [], ◌∷◌, ◌==◌, if◌then◌else◌,
}
use not_so_simple_software_f.Cron.Text.{split}
use not_so_simple_software_f.Planning.Keys.{trim_space, lowered, same_text}
use not_so_simple_software_f.Store.States.{
  ReviewVerdict, verdict_none, approve, request_changes, verdict_blocked,
}

-- ReviewVerdictMarker
abbrev pub marker : String
marker = "FACTORY-VERDICT:"

-- strings.HasPrefix, with what strings.TrimPrefix leaves.
unfoldable pub after_prefix : String → String → Option String
after_prefix String.[] text = some text
after_prefix (String.◌∷◌ p prefix) String.[] = none
after_prefix (String.◌∷◌ p prefix) (String.◌∷◌ c text) =
    let rest = after_prefix prefix text in if code p == code c then rest else none

-- A candidate that is supported; any other is no verdict.
unfoldable pub candidate : List ℕ → ReviewVerdict
candidate text =
    if same_text text (lowered "approve")
    then approve
    else if same_text text (lowered "request-changes")
    then request_changes
    else if same_text text (lowered "blocked")
    then verdict_blocked
    else verdict_none

abbrev named : Option String → Option ReviewVerdict
named none = none
named (some text) = some (candidate (lowered (trim_space text)))

-- What a line says, where it starts with the marker.
unfoldable pub line_verdict : String → Option ReviewVerdict
line_verdict line = named (after_prefix marker (trim_space line))

abbrev pub settle : Option ReviewVerdict → ReviewVerdict → ReviewVerdict
settle none verdict = verdict
settle (some said) verdict = said

-- The loop over the lines.
unfoldable pub read_lines : ReviewVerdict → List String → ReviewVerdict
read_lines verdict [] = verdict
read_lines verdict (line ∷ rest) = read_lines (settle (line_verdict line) verdict) rest

abbrev pub newline : ℕ
newline = 10

unfoldable pub parse_review_verdict : String → ReviewVerdict
parse_review_verdict result = read_lines verdict_none (split newline result)
