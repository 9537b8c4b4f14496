-- ===== src/Merge/Passes/Alone.antt =====
-- A run of maybeAutoMerge that nothing overlaps is the function maybe_auto_merge.
use not_so_simple_software_f.Prelude.{ℕ, Option, String, List, [], ◌∷◌, replicate}
use not_so_simple_software_f.Merge.Request.{Urls, PullRequest}
use not_so_simple_software_f.Merge.Rows.{MergeSession, Ledger}
use not_so_simple_software_f.Merge.{GitHub}
use not_so_simple_software_f.Merge.Passes.{Service, Pass, over, with_answer, run_turns, put_turn}

-- GitHub at one time.
abbrev pub github_at : Service → ℕ → List PullRequest → GitHub
github_at service now merged = record {
  failing_checks = service.checks now;
  merge_pull_request = service.refusal now merged;
}

module _ (urls : Urls) (service : Service) (now : ℕ) (db : Ledger) (merged : List PullRequest) where
  -- What the only run leaves from a place in some turns.
  abbrev from : ℕ → Pass → Ledger
  from turns p =
      (run_turns urls service (replicate turns (record { run = 0; now = now }))
        (record { ledger = db; merged = merged; passes = p ∷ [] })).ledger

  abbrev after_answer : Option String → MergeSession → PullRequest → Ledger
  after_answer answer s pr =
      (run_turns urls service (record { run = 0; now = now } ∷ []) (
        put_turn 0 (record { ledger = db; merged = merged; passes = over ∷ [] })
          (with_answer s pr db merged answer))).ledger
