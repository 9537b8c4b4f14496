-- ===== src/Merge/Passes.antt =====
-- Runs of maybeAutoMerge (factory/internal/controlplane/automerge.go) that overlap. Each query, each call of
-- GitHub and each transaction is a turn of its own, and between two turns of one run any others may come.
pub mod Invariant
pub mod Turns
pub mod Kept
pub mod Fair
pub mod Alone
use not_so_simple_software_f.Prelude.{
  ℕ, zero, suc, Bool, String, Option, none, some, List, [], ◌∷◌, map, ◌==◌, get_elem?, set,
  if◌then◌else◌,
}
use not_so_simple_software_f.Table.{find_row}
use not_so_simple_software_f.Stage.Report.Join.{join}
use not_so_simple_software_f.Merge.Request.{Urls, PullRequest, parse_pull_request_url}
use not_so_simple_software_f.Merge.Rows.{MergeSession, Ledger, record_merge, record_merge_refusal}
use not_so_simple_software_f.Merge.{Checks, unreadable, failing, is_due, is_mergeable}

-- GitHub, with what it has merged so far: the failing checks, and why a merge is refused, if it is. Its answers
-- may change with the time.
pub record Service : Type 0 where
  pub checks : (now : ℕ) → PullRequest → (sha : String) → Checks
  pub refusal :
      (now : ℕ) → (merged : List PullRequest) → PullRequest → (sha : String) → Option String

-- Where a run is: before it reads the session, the verdict and the number of merges; before it asks for the
-- checks, for the merge; before it writes the row of a merge that GitHub made, or the note of a refusal;
-- and after its return.
pub data Pass : Type 0 where
  beginning : (work : ℕ) → Pass
  judging : MergeSession → Pass
  counting : MergeSession → Pass
  asking : MergeSession → PullRequest → Pass
  merging : MergeSession → PullRequest → Pass
  recording : MergeSession → Pass
  refusing : (work : ℕ) → (reason : String) → Pass
  over : Pass

abbrev pub with_row : Option MergeSession → Pass
with_row none = over
with_row (some s) = judging s

abbrev pub with_request : MergeSession → Option PullRequest → Pass
with_request s none = over
with_request s (some pr) = asking s pr

abbrev pub with_checks : MergeSession → PullRequest → Checks → Pass
with_checks s pr (unreadable reason) = refusing s.id (join "checks could not be read: " reason)
with_checks s pr (failing (check ∷ rest)) = over
with_checks s pr (failing []) = merging s pr

-- The ledger, what GitHub has merged, and one run.
pub record Turn : Type 0 where
  pub ledger : Ledger
  pub merged : List PullRequest
  pub pass : Pass

-- GitHub's answer to a merge.
abbrev pub with_answer :
    MergeSession → PullRequest → Ledger → List PullRequest → Option String → Turn
with_answer s pr db merged none = record { ledger = db; merged = pr ∷ merged; pass = recording s }
with_answer s pr db merged (some reason) = record {
  ledger = db;
  merged = merged;
  pass = refusing s.id reason;
}

-- A server that holds a credential takes the next turn of a run.
unfoldable pub advance : Urls → Service → ℕ → Pass → Ledger → List PullRequest → Turn
advance urls service now (beginning work) db merged = record {
  ledger = db;
  merged = merged;
  pass = with_row (find_row (λ s. s.id == work) db.sessions);
}
advance urls service now (judging s) db merged = record {
  ledger = db;
  merged = merged;
  pass = if is_due db s then counting s else over;
}
advance urls service now (counting s) db merged = record {
  ledger = db;
  merged = merged;
  pass =
      if is_mergeable db s
      then with_request s (parse_pull_request_url urls s.pull_request_url)
      else over;
}
advance urls service now (asking s pr) db merged = record {
  ledger = db;
  merged = merged;
  pass = with_checks s pr (service.checks now pr s.pull_request_head_sha);
}
advance urls service now (merging s pr) db merged =
    with_answer s pr db merged (service.refusal now merged pr s.pull_request_head_sha)
advance urls service now (recording s) db merged = record {
  ledger = record_merge now s db;
  merged = merged;
  pass = over;
}
advance urls service now (refusing work reason) db merged = record {
  ledger = record_merge_refusal work reason db;
  merged = merged;
  pass = over;
}
advance urls service now over db merged = record { ledger = db; merged = merged; pass = over }

pub record World : Type 0 where
  pub ledger : Ledger
  pub merged : List PullRequest
  pub passes : List Pass

abbrev pub put_turn : ℕ → World → Turn → World
put_turn i w t = record { ledger = t.ledger; merged = t.merged; passes = set w.passes i t.pass }

abbrev pub turn_of : Urls → Service → ℕ → ℕ → World → Option Pass → World
turn_of urls service now i w none = w
turn_of urls service now i w (some p) = put_turn i w (advance urls service now p w.ledger w.merged)

-- Which run takes a turn, and when.
pub record Slot : Type 0 where
  pub run : ℕ
  pub now : ℕ

unfoldable pub run_turns : Urls → Service → List Slot → World → World
run_turns urls service [] w = w
run_turns urls service (t ∷ rest) w =
    run_turns urls service rest (turn_of urls service t.now t.run w (get_elem? w.passes t.run))

-- Runs for some Works, as often as they stand in the list.
abbrev pub begin_runs : List ℕ → Ledger → List PullRequest → World
begin_runs works db merged = record {
  ledger = db;
  merged = merged;
  passes = map (λ work. beginning work) works;
}
