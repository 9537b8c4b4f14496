-- ===== src/Merge/Passes/Kept.antt =====
-- What no run of maybeAutoMerge changes: the sessions but for the notes about refusals, and the verdicts.
use not_so_simple_software_f.Prelude.{
  ℕ, ◌≡◌, inl, inr, refl, ap, ◌∙◌, Bool, String, Option, none, some, List, [], ◌∷◌, map, Bool-cases,
  get_elem?,
}
use not_so_simple_software_f.Table.{update_where}
use not_so_simple_software_f.Merge.Request.{Urls, PullRequest}
use not_so_simple_software_f.Merge.Rows.{
  MergeSession, Ledger, record_merge, record_merge_refusal, noted,
}
use not_so_simple_software_f.Merge.Passes.{
  Service, Pass, beginning, judging, counting, asking, merging, recording, refusing, over,
  with_answer, advance, World, Slot, turn_of, run_turns,
}

abbrev pub without_note : MergeSession → MergeSession
without_note s = record s { terminal_message = "" }

update-same :
    (p : MergeSession → Bool) (message : String) (sessions : List MergeSession)
    → map without_note (update_where p (noted message) sessions) ≡ map without_note sessions
unfolding noted
update-same p message [] = refl
update-same p message (s ∷ rest) = elim (Bool-cases (p s)) [
  | inl here ↦ rw here (ap (λ l. without_note s ∷ l) (update-same p message rest))
  | inr other ↦ rw other (ap (λ l. without_note s ∷ l) (update-same p message rest))
]

pub record Kept (db after : Ledger) : Type 0 where
  pub sessions : map without_note after.sessions ≡ map without_note db.sessions
  pub stages : after.stages ≡ db.stages

abbrev unchanged : (db : Ledger) → Kept db db
unchanged db = record { sessions = refl; stages = refl }

answered-Kept :
    (s : MergeSession) (pr : PullRequest) (db : Ledger) (merged : List PullRequest)
    (answer : Option String)
    → Kept db (with_answer s pr db merged answer).ledger
answered-Kept s pr db merged none = unchanged db
answered-Kept s pr db merged (some reason) = unchanged db

advance-Kept :
    (urls : Urls) (service : Service) (now : ℕ) (p : Pass) (db : Ledger) (merged : List PullRequest)
    → Kept db (advance urls service now p db merged).ledger
unfolding advance record_merge record_merge_refusal
advance-Kept urls service now (beginning work) db merged = unchanged db
advance-Kept urls service now (judging s) db merged = unchanged db
advance-Kept urls service now (counting s) db merged = unchanged db
advance-Kept urls service now (asking s pr) db merged = unchanged db
advance-Kept urls service now (merging s pr) db merged =
    answered-Kept s pr db merged (service.refusal now merged pr s.pull_request_head_sha)
advance-Kept urls service now (recording s) db merged = record { sessions = refl; stages = refl }
advance-Kept urls service now (refusing work reason) db merged = record {
  sessions = update-same _ _ db.sessions;
  stages = refl;
}
advance-Kept urls service now over db merged = unchanged db

turn_of-Kept :
    (urls : Urls) (service : Service) (now i : ℕ) (w : World) (p : Option Pass)
    → Kept w.ledger (turn_of urls service now i w p).ledger
turn_of-Kept urls service now i w none = unchanged w.ledger
turn_of-Kept urls service now i w (some p) = advance-Kept urls service now p w.ledger w.merged

pub run_turns-Kept :
    (urls : Urls) (service : Service) (turns : List Slot) (w : World)
    → Kept w.ledger (run_turns urls service turns w).ledger
unfolding run_turns
run_turns-Kept urls service [] w = unchanged w.ledger
run_turns-Kept urls service (t ∷ rest) w =
    let first = turn_of-Kept urls service t.now t.run w (get_elem? w.passes t.run) in
    let more =
      run_turns-Kept urls service rest
        (turn_of urls service t.now t.run w (get_elem? w.passes t.run)) in
    record { sessions = more.sessions ∙ first.sessions; stages = more.stages ∙ first.stages }
