-- ===== src/Merge/Passes/Invariant.antt =====
-- What holds between any two turns of overlapping runs: the rows of a Work's merges and the runs that are
-- about to write one are one at most, and for each of them GitHub has merged the Work's pull request.
use not_so_simple_software_f.Prelude.{
  ℕ, ◌+◌, ◌≡◌, ◌⊎◌, inl, inr, refl, sym, ap, ◌∙◌, subst, Bool, true, false, String, Option, none,
  some, List, ◌∷◌, ◌==◌, ==_iff, Bool-cases, Option-cases,
}
use mathlib.Core.List.{Mem}
use not_so_simple_software_f.Table.{find_row, count_where, update_where}
use not_so_simple_software_f.Table.Laws.{
  find_row_test, find_row-update_where, find_row-update_where-none, count-snoc,
}
use not_so_simple_software_f.Worker.Claiming.Counts.{tally, count}
use not_so_simple_software_f.Merge.Request.{Urls, PullRequest, parse_pull_request_url}
use not_so_simple_software_f.Merge.Rows.{
  MergeSession, Ledger, is_merged, merge_row, record_merge, noted,
}
use not_so_simple_software_f.Merge.Passes.{
  Service, Pass, judging, counting, asking, merging, recording, Turn, World,
}

-- A run that is about to write the row of a Work's merge.
abbrev pub is_recording : ℕ → Pass → Bool
is_recording work (recording s) = s.id == work
is_recording work _ = false

-- The rows of a Work's merges, and those that are about to be written.
abbrev pub merges_of : ℕ → World → ℕ
merges_of work w =
    count_where (is_merged work) w.ledger.updates + count (is_recording work) w.passes

abbrev pub address_in : Option MergeSession → Option String
address_in none = none
address_in (some s) = some s.pull_request_url

-- The address of the pull request of a Work.
abbrev pub address_of : List MergeSession → ℕ → Option String
address_of sessions work = address_in (find_row (λ s. s.id == work) sessions)

pub address_of-found :
    (sessions : List MergeSession) (work : ℕ) (s : MergeSession)
    → find_row (λ r. r.id == work) sessions ≡ some s
    → address_of sessions s.id ≡ some s.pull_request_url
address_of-found sessions work s h =
    let same : s.id ≡ work =
      (==_iff s.id work).0 (find_row_test (λ r. r.id == work) sessions s h) in
    subst (λ n. address_of sessions n ≡ some s.pull_request_url) (sym same) (ap address_in h)

pub address_of-noted :
    (message : String) (p : MergeSession → Bool) (sessions : List MergeSession) (work : ℕ)
    → address_of (update_where p (noted message) sessions) work ≡ address_of sessions work
unfolding noted
address_of-noted message p sessions work =
    elim (Option-cases (find_row (λ s. s.id == work) sessions)) [
      | inl missing ↦
          ap address_in (
            find_row-update_where-none (λ s. s.id == work) p (noted message) sessions (λ x. refl)
              missing)
          ∙ sym (ap address_in missing)
      | inr (s, found) ↦
          ap address_in (
            find_row-update_where (λ s. s.id == work) p (noted message) sessions s (λ x. refl)
              found)
          ∙ (elim (Bool-cases (p s)) [ inl here ↦ rw here refl | inr other ↦ rw other refl ])
          ∙ sym (ap address_in found)
    ]

pub count-row :
    (now : ℕ) (s : MergeSession) (db : Ledger) (work : ℕ)
    → count_where (is_merged work) (record_merge now s db).updates
      ≡ count_where (is_merged work) db.updates + tally (s.id == work)
unfolding record_merge merge_row
count-row now s db work = elim (Bool-cases (s.id == work)) [
  | inl mine ↦
      (let row : is_merged work (merge_row now s db) ≡ true = rw mine refl in
        rw mine (count-snoc (is_merged work) db.updates (merge_row now s db) ∙ rw row refl))
  | inr other ↦
      (let row : is_merged work (merge_row now s db) ≡ false = rw other refl in
        rw other (count-snoc (is_merged work) db.updates (merge_row now s db) ∙ rw row refl))
]

-- GitHub refuses to merge a pull request that it has merged.
abbrev pub RefusesMerged : Service → Type 0
RefusesMerged service =
    (now : ℕ) (merged : List PullRequest) (pr : PullRequest) (sha : String)
    → Mem pr merged
    → (reason : String) × (service.refusal now merged pr sha ≡ some reason)

module _ (urls : Urls) (address : ℕ → Option String) where
  -- GitHub has merged the pull request of a Work.
  pub record Taken (work : ℕ) (merged : List PullRequest) : Type 0 where
    pub raw : String
    pub request : PullRequest
    pub at : address work ≡ some raw
    pub parsed : parse_pull_request_url urls raw ≡ some request
    pub is_in : Mem request merged

  abbrev pub At : MergeSession → Type 0
  At s = address s.id ≡ some s.pull_request_url

  -- A run has the address of its Work, and the pull request at it.
  abbrev pub Placed : Pass → Type 0
  Placed (judging s) = At s
  Placed (counting s) = At s
  Placed (asking s pr) = At s × (parse_pull_request_url urls s.pull_request_url ≡ some pr)
  Placed (merging s pr) = At s × (parse_pull_request_url urls s.pull_request_url ≡ some pr)
  Placed _ = Unit

  -- A turn adds up when the rows and the runs that are about to write one are as many as before.
  abbrev pub AddsUp : Pass → Ledger → Turn → (ℕ → ℕ) → Type 0
  AddsUp p db t more =
      (work : ℕ)
      → count_where (is_merged work) t.ledger.updates + tally (is_recording work t.pass)
        ≡ count_where (is_merged work) db.updates + tally (is_recording work p) + more work

  -- A merge that GitHub made, of a pull request that it had not merged.
  pub record Merges (p : Pass) (db : Ledger) (merged : List PullRequest) (t : Turn) : Type 0 where
    pub session : MergeSession
    pub request : PullRequest
    pub at : At session
    pub parsed : parse_pull_request_url urls session.pull_request_url ≡ some request
    pub fresh : ¬ (Mem request merged)
    pub grows : t.merged ≡ request ∷ merged
    pub one_more : AddsUp p db t (λ work. tally (session.id == work))

  pub record Turned (p : Pass) (db : Ledger) (merged : List PullRequest) (t : Turn) : Type 0 where
    pub addresses : (work : ℕ) → address_of t.ledger.sessions work ≡ address_of db.sessions work
    pub placed : Placed t.pass
    pub effect : (AddsUp p db t (λ work. 0) × (t.merged ≡ merged)) ⊎ Merges p db merged t
