-- ===== src/Cron/Text.antt =====
-- The functions of Go's strings and strconv that the parser of cron fields calls, for separators of one
-- character.
use Prim.Native.Char.{code}
use not_so_simple_software_f.Prelude.{
  ℕ, zero, suc, ◌+◌, ◌*◌, ◌-◌, Bool, true, false, ◌&&◌, ◌||◌, String, Option, none, some, List, [],
  ◌∷◌, ltb, leb, ◌==◌, ℤ, pos, negsuc, if◌then◌else◌,
}

-- strings.HasPrefix
abbrev pub has_prefix : ℕ → String → Bool
has_prefix c String.[] = false
has_prefix c (String.◌∷◌ x text) = code x == c

-- strings.Contains
abbrev pub contains : ℕ → String → Bool
contains c String.[] = false
contains c (String.◌∷◌ x text) = code x == c || contains c text

-- strings.Split: the texts between the separators, one at least.
unfoldable pub split : ℕ → String → List String
split c String.[] = String.[] ∷ []
split c (String.◌∷◌ x text) = elim (split c text) [
  | [] ↦ []
  | first ∷ rest ↦ if code x == c then String.[] ∷ first ∷ rest else String.◌∷◌ x first ∷ rest
]

-- The results of strings.Cut.
pub record Halves : Type 0 where
  pub before : String
  pub after : String
  pub found : Bool

unfoldable pub cut : ℕ → String → Halves
cut c String.[] = record { before = String.[]; after = String.[]; found = false }
cut c (String.◌∷◌ x text) =
    let rest = cut c text in
    if code x == c
    then record { before = String.[]; after = text; found = true }
    else record rest { before = String.◌∷◌ x rest.before }

abbrev pub is_empty : String → Bool
is_empty String.[] = true
is_empty (String.◌∷◌ x text) = false

-- 2 ^ 63
abbrev pub int_limit : ℕ
int_limit = 9223372036854775808

-- The number that a text of decimal digits continues.
unfoldable pub digits : ℕ → String → Option ℕ
digits n String.[] = some n
digits n (String.◌∷◌ x text) =
    let rest = digits (n * 10 + (code x - b'0')) text in
    if leb b'0' (code x) && leb (code x) b'9' then rest else none

abbrev unsigned : String → Option ℕ
unsigned text = if is_empty text then none else digits 0 text

abbrev in_int : Option ℕ → Option ℤ
in_int none = none
in_int (some n) = if ltb n int_limit then some (pos n) else none

abbrev negated : ℕ → ℤ
negated zero = pos 0
negated (suc n) = negsuc n

abbrev in_negative_int : Option ℕ → Option ℤ
in_negative_int none = none
in_negative_int (some n) = if leb n int_limit then some (negated n) else none

-- strconv.Atoi: an optional sign, then decimal digits, within 64 bits.
unfoldable pub atoi : String → Option ℤ
unfolding digits
atoi String.[] = none
atoi (String.◌∷◌ x text) =
    if code x == b'-'
    then in_negative_int (unsigned text)
    else if code x == b'+'
    then in_int (unsigned text)
    else in_int (unsigned (String.◌∷◌ x text))

-- unicode.ToUpper on the letters whose upper case is an ASCII letter; the two that are not ASCII
-- themselves are the dotless i and the long s.
abbrev upper : ℕ → ℕ
upper c =
    if leb b'a' c && leb c b'z'
    then c - 32
    else if c == 0x131
    then b'I'
    else if c == 0x17F
    then b'S'
    else c

-- strings.ToUpper(text) == name, for a name of ASCII letters.
unfoldable pub is_upper : String → String → Bool
is_upper String.[] String.[] = true
is_upper (String.◌∷◌ x text) (String.◌∷◌ y name) = upper (code x) == code y && is_upper text name
is_upper _ _ = false
