-- ===== src/Stage/Report.antt =====
-- The report at the end of a stage's result: ParseStageReportChecks
-- (factory/internal/protocol/stage_report.go). A text is Unicode; `len` is its number of bytes.
pub mod Bounds
pub mod Join
pub mod Last
pub mod Rows
use Prim.Native.Char.{code, len_utf8}
use not_so_simple_software_f.Prelude.{
  ℕ, ◌+◌, ◌-◌, Bool, true, false, ◌&&◌, ◌||◌, String, len, Option, none, some, List, [], ◌∷◌, ◌++◌,
  ltb, leb, ◌==◌, length, if◌then◌else◌,
}
use not_so_simple_software_f.Cron.Text.{split, is_empty}
use not_so_simple_software_f.Planning.Keys.{trim_space, lowered, same_text}
use not_so_simple_software_f.Review.{after_prefix, newline}

abbrev pub max_checks : ℕ
max_checks = 20

abbrev pub max_name_bytes : ℕ
max_name_bytes = 200

-- VerificationCheckState
pub data CheckState : Type 0 where
  passed : CheckState
  failed : CheckState
  not_run : CheckState

-- VerificationCheckSource
pub data CheckSource : Type 0 where
  code_stage : CheckSource
  agent_reported : CheckSource

-- VerificationCheck, without the detail, which is empty here.
pub record Check : Type 0 where
  pub name : String
  pub source : CheckSource
  pub state : CheckState

-- strings.EqualFold with an ASCII text: each character in lower case; the long s and the Kelvin sign fold
-- with letters.
abbrev fold : ℕ → ℕ
fold c =
    if leb b'A' c && leb c b'Z'
    then c + 32
    else if c == 0x17F
    then b's'
    else if c == 0x212A
    then b'k'
    else c

unfoldable pub folded : String → List ℕ
folded String.[] = []
folded (String.◌∷◌ c text) = fold (code c) ∷ folded text

abbrev pub heading : String
heading = "Verification:"

unfoldable pub is_heading : String → Bool
is_heading line = same_text (folded (trim_space line)) (folded heading)

-- The first loop: what stands after the last heading, if there is one.
unfoldable pub after_heading : Option (List String) → List String → Option (List String)
after_heading start [] = start
after_heading start (line ∷ rest) =
    after_heading (if is_heading line then some rest else start) rest

-- The bullets that a row may start with.
abbrev pub bullets : List String
bullets = "- " ∷ "* " ∷ "• " ∷ []

unfoldable pub item_after : List String → String → Option String
item_after [] line = none
item_after (bullet ∷ rest) line = elim (after_prefix bullet line) [
  | some text ↦ some (trim_space text)
  | none ↦ item_after rest line
]

-- stageReportListItem
unfoldable pub list_item : String → Option String
list_item line = item_after bullets line

-- What stands before and after a separator.
pub record Parts : Type 0 where
  pub before : String
  pub after : String

abbrev at_start : Option String → Option Parts
at_start none = none
at_start (some after) = some (record { before = String.[]; after = after })

-- strings.LastIndex, with the two slices that it is used for. A separator is not empty.
unfoldable pub cut_last : String → String → Option Parts
cut_last separator String.[] = none
cut_last separator (String.◌∷◌ c text) = elim (cut_last separator text) [
  | some p ↦ some (record { before = String.◌∷◌ c p.before; after = p.after })
  | none ↦ at_start (after_prefix separator (String.◌∷◌ c text))
]

-- The cutset of strings.Trim: full stop, backquote and star.
abbrev is_mark : ℕ → Bool
is_mark c = c == b'.' || c == 0x60 || c == b'*'

unfoldable pub trim_marks_left : String → String
trim_marks_left String.[] = String.[]
trim_marks_left (String.◌∷◌ c text) =
    let rest = trim_marks_left text in if is_mark (code c) then rest else String.◌∷◌ c text

unfoldable pub trim_marks_right : String → String
trim_marks_right String.[] = String.[]
trim_marks_right (String.◌∷◌ c text) =
    let rest = trim_marks_right text in
    if is_mark (code c) && is_empty rest then String.[] else String.◌∷◌ c rest

-- The words of a state.
unfoldable pub state_of : List ℕ → Option CheckState
state_of word =
    if same_text word (lowered "passed") || same_text word (lowered "pass")
    then some passed
    else if same_text word (lowered "failed") || same_text word (lowered "fail")
    then some failed
    else if same_text word (lowered "not-run")
        || same_text word (lowered "not run")
        || same_text word (lowered "skipped")
    then some not_run
    else none

-- parseStageReportState
unfoldable pub parse_state : String → Option CheckState
parse_state value =
    state_of (lowered (trim_space (trim_marks_right (trim_marks_left (trim_space value)))))

-- The first characters of a text, within a number of bytes.
unfoldable pub take_bytes : ℕ → String → String
take_bytes n String.[] = String.[]
take_bytes n (String.◌∷◌ c text) =
    let rest = take_bytes (n - len_utf8 c) text in
    if leb (len_utf8 c) n then String.◌∷◌ c rest else String.[]

-- boundedReportField
unfoldable pub bounded_report_field : String → ℕ → String
bounded_report_field value maximum =
    if leb (len value) maximum then value else take_bytes maximum value

-- A part whose state is read and whose name is not empty.
abbrev pub check_of : Option CheckState → String → Option Check
check_of none name = none
check_of (some state) name =
    if is_empty name
    then none
    else some (record {
      name = bounded_report_field name max_name_bytes;
      source = agent_reported;
      state = state;
    })

abbrev pub check_at : Option Parts → Option Check
check_at none = none
check_at (some p) = check_of (parse_state p.after) (trim_space p.before)

abbrev pub separators : List String
separators = " — " ∷ " – " ∷ " -- " ∷ " - " ∷ []

unfoldable pub check_by : List String → String → Option Check
check_by [] item = none
check_by (separator ∷ rest) item = elim (check_at (cut_last separator item)) [
  | some check ↦ some check
  | none ↦ check_by rest item
]

-- parseStageReportCheck
unfoldable pub parse_check : String → Option Check
parse_check item = check_by separators item

abbrev pub add_check : Option Check → List Check → List Check
add_check none checks = checks
add_check (some check) checks = checks ++ check ∷ []

-- The second loop: it passes over empty lines and ends at the first other line that is no row, or when
-- there are checks enough.
unfoldable pub read_rows : List Check → List String → List Check
read_rows checks [] = checks
read_rows checks (line ∷ rest) = elim (is_empty (trim_space line)) [
  | true ↦ read_rows checks rest
  | false ↦ elim (list_item (trim_space line)) [
    | none ↦ checks
    | some item ↦ elim (leb max_checks (length checks)) [
      | true ↦ checks
      | false ↦ read_rows (add_check (parse_check item) checks) rest
    ]
  ]
]

abbrev pub rows_of : Option (List String) → List Check
rows_of none = []
rows_of (some rest) = read_rows [] rest

unfoldable pub parse_stage_report_checks : String → List Check
parse_stage_report_checks result = rows_of (after_heading none (split newline result))
