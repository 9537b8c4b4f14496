-- ===== src/Merge/Passes/Turns.antt =====
-- What one turn of one run does.
use not_so_simple_software_f.Prelude.{
  ℕ, ◌≡◌, inl, inr, refl, sym, ◌∙◌, false, String, Option, none, some, List, [], ◌∷◌, arith, ◌==◌,
  Bool-cases, Option-cases, if◌then◌else◌,
}
use mathlib.Core.List.{Mem}
use not_so_simple_software_f.Table.{find_row}
use not_so_simple_software_f.Merge.Request.{Urls, PullRequest, parse_pull_request_url}
use not_so_simple_software_f.Merge.Rows.{MergeSession, Ledger, record_merge, record_merge_refusal}
use not_so_simple_software_f.Merge.{Checks, unreadable, failing, is_due, is_mergeable}
use not_so_simple_software_f.Merge.Passes.{
  Service, Pass, beginning, judging, counting, asking, merging, recording, refusing, over, with_row,
  with_request, with_checks, with_answer, advance,
}
use not_so_simple_software_f.Merge.Passes.Invariant.{
  is_recording, address_of, address_of-found, address_of-noted, count-row, RefusesMerged, Placed,
  At, Turned,
}

module _ (urls : Urls) (address : ℕ → Option String) (service : Service) where
  -- A turn after which only the run is elsewhere, and it is not about to write a row.
  moved :
      (p q : Pass) (db : Ledger) (merged : List PullRequest)
      → Placed urls address q
      → ((work : ℕ) → is_recording work p ≡ false)
      → ((work : ℕ) → is_recording work q ≡ false)
      → Turned urls address p db merged (record { ledger = db; merged = merged; pass = q })
  moved p q db merged placed before after = record {
    addresses = λ work. refl;
    placed = placed;
    effect = inl ((λ work. rw (before work, after work) (omega arith)), refl);
  }

  judged-Turned :
      (s : MergeSession) (db : Ledger) (merged : List PullRequest)
      → At urls address s
      → Turned urls address
          (judging s)
          db
          merged
          (record { ledger = db; merged = merged; pass = if is_due db s then counting s else over })
  judged-Turned s db merged at = elim (Bool-cases (is_due db s)) [
    | inl due ↦ rw due (moved (judging s) (counting s) db merged at (λ work. refl) (λ work. refl))
    | inr early ↦ rw early (moved (judging s) over db merged tt (λ work. refl) (λ work. refl))
  ]

  requested-Turned :
      (s : MergeSession) (db : Ledger) (merged : List PullRequest) (request : Option PullRequest)
      → At urls address s
      → parse_pull_request_url urls s.pull_request_url ≡ request
      → Turned urls address
          (counting s)
          db
          merged
          (record { ledger = db; merged = merged; pass = with_request s request })
  requested-Turned s db merged none at parsed =
      moved (counting s) over db merged tt (λ work. refl) (λ work. refl)
  requested-Turned s db merged (some pr) at parsed =
      moved (counting s) (asking s pr) db merged (at, parsed) (λ work. refl) (λ work. refl)

  counted-Turned :
      (s : MergeSession) (db : Ledger) (merged : List PullRequest)
      → At urls address s
      → Turned urls address (counting s) db merged (record {
        ledger = db;
        merged = merged;
        pass =
            if is_mergeable db s
            then with_request s (parse_pull_request_url urls s.pull_request_url)
            else over;
      })
  counted-Turned s db merged at = elim (Bool-cases (is_mergeable db s)) [
    | inl may ↦
        rw may
          (requested-Turned s db merged (parse_pull_request_url urls s.pull_request_url) at refl)
    | inr not_yet ↦ rw not_yet (moved (counting s) over db merged tt (λ work. refl) (λ work. refl))
  ]

  begun-Turned :
      (work : ℕ) (db : Ledger) (merged : List PullRequest)
      → ((n : ℕ) → address_of db.sessions n ≡ address n)
      → Turned urls address (beginning work) db merged (record {
        ledger = db;
        merged = merged;
        pass = with_row (find_row (λ s. s.id == work) db.sessions);
      })
  begun-Turned work db merged known =
      elim (Option-cases (find_row (λ s. s.id == work) db.sessions)) [
        | inl missing ↦
            rw missing (moved (beginning work) over db merged tt (λ w. refl) (λ w. refl))
        | inr (s, found) ↦
            let at = sym (known s.id) ∙ address_of-found db.sessions work s found in
            rw found (moved (beginning work) (judging s) db merged at (λ w. refl) (λ w. refl))
      ]

  asked-Turned :
      (s : MergeSession) (pr : PullRequest) (db : Ledger) (merged : List PullRequest)
      (answer : Checks)
      → Placed urls address (asking s pr)
      → Turned urls address
          (asking s pr)
          db
          merged
          (record { ledger = db; merged = merged; pass = with_checks s pr answer })
  asked-Turned s pr db merged (unreadable reason) placed =
      moved (asking s pr) (refusing s.id _) db merged tt (λ w. refl) (λ w. refl)
  asked-Turned s pr db merged (failing (check ∷ rest)) placed =
      moved (asking s pr) over db merged tt (λ w. refl) (λ w. refl)
  asked-Turned s pr db merged (failing []) placed =
      moved (asking s pr) (merging s pr) db merged placed (λ w. refl) (λ w. refl)

  answered-Turned :
      (s : MergeSession) (pr : PullRequest) (db : Ledger) (merged : List PullRequest)
      (answer : Option String)
      → (Mem pr merged → (reason : String) × (answer ≡ some reason))
      → Placed urls address (merging s pr)
      → Turned urls address (merging s pr) db merged (with_answer s pr db merged answer)
  answered-Turned s pr db merged none refuses placed = record {
    addresses = λ work. refl;
    placed = tt;
    effect = inr (record {
      session = s;
      request = pr;
      at = placed.0;
      parsed = placed.1;
      fresh = λ known. (let (reason, refused) = refuses known in cc);
      grows = refl;
      one_more = λ work. omega arith;
    });
  }
  answered-Turned s pr db merged (some reason) refuses placed =
      moved (merging s pr) (refusing s.id reason) db merged tt (λ w. refl) (λ w. refl)

  record_merge-address :
      (now : ℕ) (s : MergeSession) (db : Ledger) (work : ℕ)
      → address_of (record_merge now s db).sessions work ≡ address_of db.sessions work
  unfolding record_merge
  record_merge-address now s db work = refl

  pub advance-Turned :
      (now : ℕ) (p : Pass) (db : Ledger) (merged : List PullRequest)
      → RefusesMerged service
      → ((n : ℕ) → address_of db.sessions n ≡ address n)
      → Placed urls address p
      → Turned urls address p db merged (advance urls service now p db merged)
  unfolding advance record_merge_refusal
  advance-Turned now (beginning work) db merged refuses known placed =
      begun-Turned work db merged known
  advance-Turned now (judging s) db merged refuses known placed = judged-Turned s db merged placed
  advance-Turned now (counting s) db merged refuses known placed = counted-Turned s db merged placed
  advance-Turned now (asking s pr) db merged refuses known placed =
      asked-Turned s pr db merged (service.checks now pr s.pull_request_head_sha) placed
  advance-Turned now (merging s pr) db merged refuses known placed =
      answered-Turned s pr db merged (service.refusal now merged pr s.pull_request_head_sha)
        (refuses now merged pr s.pull_request_head_sha) placed
  advance-Turned now (recording s) db merged refuses known placed = record {
    addresses = λ work. record_merge-address now s db work;
    placed = tt;
    effect = inl ((λ work. omega (arith, count-row now s db work)), refl);
  }
  advance-Turned now (refusing work reason) db merged refuses known placed = record {
    addresses = λ n. address_of-noted _ (λ s. s.id == work) db.sessions n;
    placed = tt;
    effect = inl ((λ n. omega arith), refl);
  }
  advance-Turned now over db merged refuses known placed =
      moved over over db merged tt (λ w. refl) (λ w. refl)
