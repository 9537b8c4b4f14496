-- ===== src/Merge.antt =====
-- The merge of a delivered pull request: maybeAutoMerge, whose rows are in Rows
-- (factory/internal/controlplane/automerge.go). GitHub is a parameter; the calls that are made of it are kept, in order.
pub mod Request
pub mod Rows
pub mod Justified
pub mod Passes
mod Examples
use not_so_simple_software_f.Prelude.{
  ℕ, zero, suc, ◌+◌, Bool, true, false, not, ◌&&◌, ◌||◌, String, Option, none, some, List, [], ◌∷◌,
  ◌++◌, ltb, ◌==◌, str_eq, if◌then◌else◌,
}
use not_so_simple_software_f.Table.{find_row, update_where, exists_where, select}
use not_so_simple_software_f.Cron.Text.{is_empty}
use not_so_simple_software_f.Store.States.{
  ReviewVerdict, verdict_none, approve, request_changes, verdict_blocked,
}
use not_so_simple_software_f.Stage.Report.Join.{join}
use not_so_simple_software_f.Merge.Request.{Urls, PullRequest, parse_pull_request_url}
use not_so_simple_software_f.Merge.Rows.{
  MergeSession, LedgerRow, Ledger, review_verdict_of, is_approval, is_merged, record_merge,
  record_merge_refusal,
}

-- The answers of GitHub: the failing checks or why they cannot be read; and why a merge was refused, if it
-- was.
pub data Checks : Type 0 where
  unreadable : (reason : String) → Checks
  failing : List String → Checks

pub record GitHub : Type 0 where
  pub failing_checks : PullRequest → (sha : String) → Checks
  pub merge_pull_request : PullRequest → (sha : String) → Option String

-- What was asked of GitHub.
pub data Call : Type 0 where
  reads_checks : PullRequest → (sha : String) → Call
  merges : PullRequest → (sha : String) → Call

pub record Outcome : Type 0 where
  pub after : Ledger
  pub calls : List Call

abbrev pub quiet : Ledger → Outcome
quiet db = record { after = db; calls = [] }

-- From the answer to the merge.
abbrev pub after_merge : ℕ → MergeSession → PullRequest → Ledger → Option String → Outcome
after_merge now s pr db (some reason) = record {
  after = record_merge_refusal s.id reason db;
  calls = reads_checks pr s.pull_request_head_sha ∷ merges pr s.pull_request_head_sha ∷ [];
}
after_merge now s pr db none = record {
  after = record_merge now s db;
  calls = reads_checks pr s.pull_request_head_sha ∷ merges pr s.pull_request_head_sha ∷ [];
}

-- From the answer to the reading of checks.
abbrev pub after_checks : GitHub → ℕ → MergeSession → PullRequest → Ledger → Checks → Outcome
after_checks github now s pr db (unreadable reason) = record {
  after = record_merge_refusal s.id (join "checks could not be read: " reason) db;
  calls = reads_checks pr s.pull_request_head_sha ∷ [];
}
after_checks github now s pr db (failing (check ∷ rest)) = record {
  after = db;
  calls = reads_checks pr s.pull_request_head_sha ∷ [];
}
after_checks github now s pr db (failing []) =
    after_merge now s pr db (github.merge_pull_request pr s.pull_request_head_sha)

abbrev pub after_parse : GitHub → ℕ → MergeSession → Ledger → Option PullRequest → Outcome
after_parse github now s db none = quiet db
after_parse github now s db (some pr) =
    after_checks github now s pr db (github.failing_checks pr s.pull_request_head_sha)

-- The conditions that need no network, in their order, up to the credential.
unfoldable pub is_due : Ledger → MergeSession → Bool
is_due db s =
    str_eq s.delivery "pr+automerge"
    && str_eq s.delivery_verification_source "server-github"
    && (str_eq s.assurance "fast" || is_approval (review_verdict_of db s.id))

-- What a server with a credential requires further.
unfoldable pub is_mergeable : Ledger → MergeSession → Bool
is_mergeable db s =
    not (is_empty s.pull_request_url)
    && not (is_empty s.pull_request_head_sha)
    && not (exists_where (is_merged s.id) db.updates)

abbrev pub with_github : Urls → Option GitHub → ℕ → MergeSession → Ledger → Outcome
with_github urls none now s db = quiet db
with_github urls (some github) now s db =
    if is_mergeable db s
    then after_parse github now s db (parse_pull_request_url urls s.pull_request_url)
    else quiet db

abbrev pub for_session : Urls → Option GitHub → ℕ → Option MergeSession → Ledger → Outcome
for_session urls github now none db = quiet db
for_session urls github now (some s) db =
    if is_due db s then with_github urls github now s db else quiet db

-- A whole run, where no other run or transaction comes between its queries; runs that overlap are in Passes.
unfoldable pub maybe_auto_merge : Urls → Option GitHub → ℕ → ℕ → Ledger → Outcome
maybe_auto_merge urls github now work db =
    for_session urls github now (find_row (λ s. s.id == work) db.sessions) db
