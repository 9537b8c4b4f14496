-- ===== src/Planning/Keys.antt =====
-- The texts that name a checkpoint or a status, as they are normalized (validPlanningCheckpointKey,
-- validPlanningSlug, boundPlanningText; strings.TrimSpace and strings.ToLower).
use Prim.Native.Char.{code}
use not_so_simple_software_f.Prelude.{
  ℕ, ◌+◌, Bool, true, false, not, ◌&&◌, ◌||◌, String, len, List, [], ◌∷◌, ltb, leb, ◌==◌, ℤ, pos,
  negsuc, length, if◌then◌else◌,
}
use not_so_simple_software_f.Service.{Result, ok, err, invalid, refuse_if, ◌>>=◌, ◌>>◌}
use not_so_simple_software_f.Store.Events.{is_space}

unfoldable pub trim_left : String → String
trim_left String.[] = String.[]
trim_left (String.◌∷◌ c s) =
    let rest = trim_left s in if is_space (code c) then rest else String.◌∷◌ c s

unfoldable pub drop_space : Bool → String → String → String
drop_space true String.[] whole = String.[]
drop_space _ rest whole = whole

unfoldable pub trim_right : String → String
trim_right String.[] = String.[]
trim_right (String.◌∷◌ c s) =
    let rest = trim_right s in drop_space (is_space (code c)) rest (String.◌∷◌ c rest)

-- strings.TrimSpace
unfoldable pub trim_space : String → String
unfolding trim_left trim_right drop_space
trim_space text = trim_right (trim_left text)

-- unicode.ToLower on the letters whose lower case is an ASCII letter: beside A to Z these are the dotted
-- I and the Kelvin sign. A text with any other letter is no slug and no status, in either case.
abbrev lower : ℕ → ℕ
lower c =
    if leb b'A' c && leb c b'Z'
    then c + 32
    else if c == 0x130
    then b'i'
    else if c == 0x212A
    then b'k'
    else c

-- A text as its character numbers, in lower case.
unfoldable pub lowered : String → List ℕ
lowered String.[] = []
lowered (String.◌∷◌ c s) = lower (code c) ∷ lowered s

abbrev is_word : ℕ → Bool
is_word c = leb b'a' c && leb c b'z' || leb b'0' c && leb c b'9'

abbrev is_separator : ℕ → Bool
is_separator c = c == b'-' || c == b'_'

-- planningSlugPattern: words with one separator between them. `in_word` says whether a word character
-- came last, so that a separator or the end may follow.
unfoldable pub matches_slug : Bool → List ℕ → Bool
matches_slug in_word [] = in_word
matches_slug in_word (c ∷ rest) =
    is_word c && matches_slug true rest || in_word && is_separator c && matches_slug false rest

abbrev pub same_text : List ℕ → List ℕ → Bool
same_text [] [] = true
same_text (a ∷ rest) (b ∷ others) = a == b && same_text rest others
same_text _ _ = false

-- A slug is kept as its character numbers.
abbrev pub Slug : Type 0
Slug = List ℕ

abbrev pub max_slug_bytes : ℕ
max_slug_bytes = 64

abbrev pub max_checkpoint_number : ℕ
max_checkpoint_number = 999

-- A text that passes is ASCII, so that its length is its number of bytes.
unfoldable pub valid_slug : String → String → Result Slug
valid_slug value code_ = do
  let slug = lowered (trim_space value)
  refuse_if (ltb max_slug_bytes (length slug) || not (matches_slug false slug)) (invalid code_)
  ok slug

abbrev pub valid_number : ℤ → Result ℕ
valid_number (negsuc n) = err (invalid "invalid_planning_number")
valid_number (pos n) =
    if ltb n 1 || ltb max_checkpoint_number n then err (invalid "invalid_planning_number") else ok n

unfoldable pub valid_checkpoint_key : String → ℤ → Result (Slug × ℕ)
valid_checkpoint_key project number = do
  slug ← valid_slug project "invalid_planning_project"
  n ← valid_number number
  ok (slug, n)

-- A trimmed text within its limit.
unfoldable pub bounded_text : String → ℕ → String → Result String
bounded_text value limit code_ = do
  let text = trim_space value
  refuse_if (ltb limit (len text)) (invalid code_)
  ok text
