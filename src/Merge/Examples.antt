-- ===== src/Merge/Examples.antt =====
-- A delivered pull request that is merged, and one that is not.
use not_so_simple_software_f.Prelude.{
  ℕ, Option, ◌≡◌, refl, false, String, some, none, List, [], ◌∷◌, arith,
}
use not_so_simple_software_f.Table.{All, count_where}
use not_so_simple_software_f.Cron.Text.{split, atoi, digits}
use not_so_simple_software_f.Stage.Report.{folded}
use not_so_simple_software_f.Store.States.{approve, request_changes}
use not_so_simple_software_f.Merge.Request.{
  Urls, PullRequest, parse_pull_request_url, request_at, request_in, is_github, trim_slashes_left,
  trim_slashes_right,
}
use not_so_simple_software_f.Merge.Rows.{
  MergeSession, LedgerRow, Ledger, highest_from, review_verdict_of, is_merged, record_merge,
  merge_row, record_merge_refusal,
}
use not_so_simple_software_f.Merge.{
  GitHub, failing, reads_checks, merges, is_due, is_mergeable, maybe_auto_merge,
}
use not_so_simple_software_f.Merge.Justified.{Justified, maybe_auto_merge-Justified}
use mathlib.Core.List.{not-mem-nil}
use not_so_simple_software_f.Merge.Passes.{Service, Slot, World, advance, run_turns, begin_runs}
use not_so_simple_software_f.Merge.Passes.Invariant.{RefusesMerged}
use not_so_simple_software_f.Merge.Passes.Kept.{Kept}
use not_so_simple_software_f.Merge.Passes.Fair.{Agrees, run_turns-MergedOnce}

abbrev address : String
address = "https://github.com/o/r/pull/7"

-- Everything parses to the one address.
abbrev urls : Urls
urls = record {
  parse = λ raw. some (record {
    scheme = "https";
    host = "GitHub.com";
    has_user = false;
    raw_query = "";
    fragment = "";
    escaped_path = "/o/r/pull/7";
  });
  path_unescape = λ text. some text;
}

abbrev pull_request : PullRequest
pull_request = record { owner = "o"; repo = "r"; number = 7 }

address_parsed : parse_pull_request_url urls address ≡ some pull_request
unfolding parse_pull_request_url request_at request_in is_github trim_slashes_left
    trim_slashes_right split atoi digits folded
address_parsed = refl

abbrev delivered : MergeSession
delivered = record {
  id = 1;
  state = "ready";
  delivery = "pr+automerge";
  pull_request_url = address;
  pull_request_head_sha = "abc";
  delivery_verification_source = "server-github";
  assurance = "reviewed";
  terminal_message = "";
}

abbrev ready_row : LedgerRow
ready_row = record {
  work_id = 1;
  attempt_id = some 5;
  sequence = 3;
  status = "ready";
  pull_request_url = address;
  pull_request_head_sha = "abc";
  actor = "agent";
  accepted_at = 10;
}

abbrev ledger : Ledger
ledger = record {
  sessions = delivered ∷ [];
  stages =
      record { session_id = 1; position = 0; review_verdict = request_changes }
      ∷ record { session_id = 1; position = 1; review_verdict = approve }
      ∷ [];
  updates = ready_row ∷ [];
}

abbrev willing : GitHub
willing = record { failing_checks = λ pr sha. failing []; merge_pull_request = λ pr sha. none }

-- The checks are read, and then the pull request is merged.
merged_calls :
    (maybe_auto_merge urls (some willing) 20 1 ledger).calls
    ≡ reads_checks pull_request "abc" ∷ merges pull_request "abc" ∷ []
unfolding maybe_auto_merge is_due is_mergeable review_verdict_of highest_from parse_pull_request_url
    request_at request_in is_github trim_slashes_left trim_slashes_right split atoi digits folded
merged_calls = refl

maybe_auto_merge-Justified_example :
    All (Justified urls willing 1 ledger) (maybe_auto_merge urls (some willing) 20 1 ledger).calls
maybe_auto_merge-Justified_example = maybe_auto_merge-Justified urls willing 20 1 ledger

abbrev once_only : List PullRequest → Option String
once_only [] = none
once_only (one ∷ rest) = some "not mergeable"

-- Which of the runs takes a turn.
abbrev at : ℕ → Slot
at run = record { run = run; now = 20 }

-- GitHub merges one pull request, and refuses any other.
abbrev fickle : Service
fickle = record {
  checks = λ now pr sha. failing [];
  refusal = λ now merged pr sha. once_only merged;
}

fickle_refuses : RefusesMerged fickle
fickle_refuses now [] pr sha h = absurd (not-mem-nil h)
fickle_refuses now (one ∷ rest) pr sha h = ("not mergeable", refl)

ledger-Agrees : Agrees urls ledger []
ledger-Agrees = record { once = λ work. ground arith; taken = λ work h. absurd (ground (arith, h)) }

-- Two runs for one Work, which read the same ledger before either has asked for its merge.
abbrev overlapping : List Slot
overlapping = at 0 ∷ at 1 ∷ at 0 ∷ at 1 ∷ at 0 ∷ at 1 ∷ at 0 ∷ at 1 ∷ at 0 ∷ at 1 ∷ at 0 ∷ at 1 ∷ []

abbrev end_world : World
end_world = run_turns urls fickle overlapping (begin_runs (1 ∷ 1 ∷ []) ledger [])

run_turns-MergedOnce_example :
    Agrees urls end_world.ledger end_world.merged × Kept ledger end_world.ledger
run_turns-MergedOnce_example =
    run_turns-MergedOnce urls fickle (1 ∷ 1 ∷ []) overlapping ledger [] fickle_refuses ledger-Agrees

merged_once : count_where (is_merged 1) end_world.ledger.updates ≡ 1
unfolding run_turns advance is_due is_mergeable review_verdict_of highest_from
    parse_pull_request_url request_at request_in is_github trim_slashes_left trim_slashes_right
    split atoi digits folded record_merge merge_row record_merge_refusal
merged_once = refl
