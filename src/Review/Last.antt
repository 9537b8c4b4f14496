-- ===== src/Review/Last.antt =====
-- The last line with a marker decides.
use not_so_simple_software_f.Prelude.{◌≡◌, refl, ap, ◌∙◌, ◌++◌, String, none, some, List, [], ◌∷◌}
use not_so_simple_software_f.Table.{All}
use not_so_simple_software_f.Cron.Text.{split}
use not_so_simple_software_f.Store.States.{ReviewVerdict, verdict_none}
use not_so_simple_software_f.Review.{
  line_verdict, settle, read_lines, newline, parse_review_verdict,
}

-- No line carries the marker.
abbrev pub Silent : List String → Type 0
Silent lines = All (λ line. line_verdict line ≡ none) lines

read_lines-Silent :
    (verdict : ReviewVerdict) (lines : List String)
    → Silent lines
    → read_lines verdict lines ≡ verdict
unfolding read_lines
read_lines-Silent verdict [] silent = refl
read_lines-Silent verdict (line ∷ rest) silent =
    rw silent.0 (read_lines-Silent verdict rest silent.1)

read_lines-last :
    (verdict said : ReviewVerdict) (before : List String) (line : String) (after : List String)
    → line_verdict line ≡ some said
    → Silent after
    → read_lines verdict (before ++ line ∷ after) ≡ said
unfolding read_lines
read_lines-last verdict said [] line after says silent =
    ap (λ m. read_lines (settle m verdict) after) says ∙ read_lines-Silent said after silent
read_lines-last verdict said (x ∷ before) line after says silent =
    read_lines-last (settle (line_verdict x) verdict) said before line after says silent

-- The verdict of a result is what its last line with the marker says, whatever stands before that line:
-- a line that names nothing legal takes back an earlier approval.
pub parse_review_verdict-last :
    (result : String) (before : List String) (line : String) (after : List String)
    (said : ReviewVerdict)
    → split newline result ≡ before ++ line ∷ after
    → line_verdict line ≡ some said
    → Silent after
    → parse_review_verdict result ≡ said
unfolding parse_review_verdict
parse_review_verdict-last result before line after said lines says silent =
    ap (read_lines verdict_none) lines
    ∙ read_lines-last verdict_none said before line after says silent
