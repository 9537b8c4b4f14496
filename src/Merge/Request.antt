-- ===== src/Merge/Request.antt =====
-- The address of a pull request: parsePullRequestURL (factory/internal/controlplane/github.go). Go's net/url
-- is a parameter.
use Prim.Native.Char.{code}
use not_so_simple_software_f.Prelude.{
  ℕ, Bool, not, ◌&&◌, ◌||◌, String, Option, none, some, List, [], ◌∷◌, ltb, ◌==◌, ℤ, pos, str_eq,
  if◌then◌else◌,
}
use not_so_simple_software_f.Cron.Text.{split, contains, atoi, is_empty}
use not_so_simple_software_f.Planning.Keys.{same_text}
use not_so_simple_software_f.Stage.Report.{folded}

-- url.URL, in what is read of it; `escaped_path` is EscapedPath().
pub record Url : Type 0 where
  pub scheme : String
  pub host : String
  pub has_user : Bool
  pub raw_query : String
  pub fragment : String
  pub escaped_path : String

-- url.Parse and url.PathUnescape.
pub record Urls : Type 0 where
  pub parse : String → Option Url
  pub path_unescape : String → Option String

pub record PullRequest : Type 0 where
  pub owner : String
  pub repo : String
  pub number : ℕ

abbrev pub slash : ℕ
slash = b'/'

abbrev pub backslash : ℕ
backslash = 0x5C

-- strings.Trim(text, "/")
unfoldable pub trim_slashes_left : String → String
trim_slashes_left String.[] = String.[]
trim_slashes_left (String.◌∷◌ c text) =
    let rest = trim_slashes_left text in if code c == slash then rest else String.◌∷◌ c text

unfoldable pub trim_slashes_right : String → String
trim_slashes_right String.[] = String.[]
trim_slashes_right (String.◌∷◌ c text) =
    let rest = trim_slashes_right text in
    if code c == slash && is_empty rest then String.[] else String.◌∷◌ c rest

-- A name that was unescaped may not hide a separator.
abbrev pub is_clean : String → Bool
is_clean name = not (contains slash name) && not (contains backslash name)

abbrev pub clean_request : String → String → ℕ → Option PullRequest
clean_request owner repo number =
    if ltb number 1 || not (is_clean owner) || not (is_clean repo)
    then none
    else some (record { owner = owner; repo = repo; number = number })

-- The owner, the repository and the number, where each of them could be read.
abbrev pub request_of : Option String → Option String → Option ℤ → Option PullRequest
request_of (some owner) (some repo) (some (pos number)) = clean_request owner repo number
request_of _ _ _ = none

-- The four parts of the path.
unfoldable pub request_in : Urls → List String → Option PullRequest
request_in urls (owner ∷ repo ∷ kind ∷ number ∷ []) =
    if is_empty owner || is_empty repo || not (str_eq kind "pull")
    then none
    else request_of (urls.path_unescape owner) (urls.path_unescape repo) (atoi number)
request_in urls _ = none

-- https://github.com, without a user, a query or a fragment.
unfoldable pub is_github : Url → Bool
is_github url =
    str_eq url.scheme "https"
    && same_text (folded url.host) (folded "github.com")
    && not url.has_user
    && is_empty url.raw_query
    && is_empty url.fragment

unfoldable pub request_at : Urls → Option Url → Option PullRequest
request_at urls none = none
request_at urls (some url) =
    if is_github url
    then request_in urls (split slash (trim_slashes_right (trim_slashes_left url.escaped_path)))
    else none

unfoldable pub parse_pull_request_url : Urls → String → Option PullRequest
parse_pull_request_url urls raw = request_at urls (urls.parse raw)
