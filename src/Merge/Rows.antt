-- ===== src/Merge/Rows.antt =====
-- The rows that a merge reads and writes: ReviewVerdict (factory/internal/controlplane/stage_runs.go),
-- recordMerge and recordMergeRefusal (automerge.go).
use not_so_simple_software_f.Prelude.{
  ℕ, zero, suc, ◌+◌, Bool, true, false, not, ◌&&◌, String, Option, none, List, [], ◌∷◌, ◌++◌, ltb,
  ◌==◌, str_eq, if◌then◌else◌,
}
use not_so_simple_software_f.Table.{update_where, select}
use not_so_simple_software_f.Cron.Text.{is_empty}
use not_so_simple_software_f.Store.States.{ReviewVerdict, verdict_none, approve}
use not_so_simple_software_f.Stage.Report.Join.{join}

-- A session joined with its run, in the columns that are read or written here.
pub record MergeSession : Type 0 where
  pub id : ℕ
  pub state : String
  pub delivery : String
  pub pull_request_url : String
  pub pull_request_head_sha : String
  pub delivery_verification_source : String
  pub assurance : String
  pub terminal_message : String

-- A row of session_stages.
pub record StageVerdict : Type 0 where
  pub session_id : ℕ
  pub position : ℕ
  pub review_verdict : ReviewVerdict

-- A row of work_updates. The identifiers that newID draws are left out, and the message, which is for people.
pub record LedgerRow : Type 0 where
  pub work_id : ℕ
  pub attempt_id : Option ℕ
  pub sequence : ℕ
  pub status : String
  pub pull_request_url : String
  pub pull_request_head_sha : String
  pub actor : String
  pub accepted_at : ℕ

pub record Ledger : Type 0 where
  pub sessions : List MergeSession
  pub stages : List StageVerdict
  pub updates : List LedgerRow

abbrev pub is_no_verdict : ReviewVerdict → Bool
is_no_verdict verdict_none = true
is_no_verdict _ = false

-- WHERE session_id = ? AND review_verdict != ''
abbrev pub has_verdict : ℕ → StageVerdict → Bool
has_verdict session s = s.session_id == session && not (is_no_verdict s.review_verdict)

-- ORDER BY position DESC LIMIT 1, from the best row so far.
unfoldable pub highest_from : StageVerdict → List StageVerdict → StageVerdict
highest_from best [] = best
highest_from best (s ∷ rest) = highest_from (if ltb best.position s.position then s else best) rest

abbrev pub verdict_among : List StageVerdict → ReviewVerdict
verdict_among [] = verdict_none
verdict_among (s ∷ rest) = (highest_from s rest).review_verdict

-- ReviewVerdict
unfoldable pub review_verdict_of : Ledger → ℕ → ReviewVerdict
review_verdict_of db work = verdict_among (select (has_verdict work) db.stages)

abbrev pub is_approval : ReviewVerdict → Bool
is_approval approve = true
is_approval _ = false

abbrev pub is_merged : ℕ → LedgerRow → Bool
is_merged work u = u.work_id == work && str_eq u.status "merged"

abbrev pub of_work : ℕ → LedgerRow → Bool
of_work work u = u.work_id == work

-- COALESCE(MAX(sequence), 0)
abbrev pub last_sequence : List LedgerRow → ℕ
last_sequence [] = 0
last_sequence (u ∷ rest) =
    let later = last_sequence rest in if ltb later u.sequence then u.sequence else later

-- SELECT attempt_id ... AND status = 'ready' ORDER BY sequence DESC LIMIT 1
unfoldable pub latest_from : LedgerRow → List LedgerRow → LedgerRow
latest_from best [] = best
latest_from best (u ∷ rest) = latest_from (if ltb best.sequence u.sequence then u else best) rest

abbrev pub ready_attempt : List LedgerRow → Option ℕ
ready_attempt [] = none
ready_attempt (u ∷ rest) = (latest_from u rest).attempt_id

abbrev pub is_ready : ℕ → LedgerRow → Bool
is_ready work u = u.work_id == work && str_eq u.status "ready"

-- The row that recordMerge inserts.
unfoldable pub merge_row : ℕ → MergeSession → Ledger → LedgerRow
merge_row now s db = record {
  work_id = s.id;
  attempt_id = ready_attempt (select (is_ready s.id) db.updates);
  sequence = last_sequence (select (of_work s.id) db.updates) + 1;
  status = "merged";
  pull_request_url = s.pull_request_url;
  pull_request_head_sha = s.pull_request_head_sha;
  actor = "system";
  accepted_at = now;
}

unfoldable pub record_merge : ℕ → MergeSession → Ledger → Ledger
record_merge now s db = record db { updates = db.updates ++ merge_row now s db ∷ [] }

-- SQLite's substr(text, 1, n), which counts characters.
unfoldable pub take_chars : ℕ → String → String
take_chars zero text = String.[]
take_chars (suc n) String.[] = String.[]
take_chars (suc n) (String.◌∷◌ c text) = String.◌∷◌ c (take_chars n text)

abbrev pub max_message : ℕ
max_message = 8192

unfoldable pub noted : String → MergeSession → MergeSession
noted message s = record s {
  terminal_message = take_chars max_message (
      if is_empty s.terminal_message then message else join s.terminal_message (join "\n" message));
}

unfoldable pub record_merge_refusal : ℕ → String → Ledger → Ledger
record_merge_refusal work reason db = record db {
  sessions =
      update_where (λ s. s.id == work) (noted (join "Automatic merge was refused: " reason))
        db.sessions;
}
