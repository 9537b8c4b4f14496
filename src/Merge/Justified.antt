-- ===== src/Merge/Justified.antt =====
-- Nothing is asked of GitHub without a reason.
use not_so_simple_software_f.Prelude.{
  ℕ, ◌≡◌, ◌⊎◌, inl, inr, refl, Bool, true, false, ◌&&◌, ◌||◌, String, Option, none, some, [], ◌∷◌,
  ◌==◌, arith, str_eq, Bool-cases, Option-cases, &&-left, &&-right,
}
use not_so_simple_software_f.Table.{find_row, exists_where, All}
use not_so_simple_software_f.Cron.Text.{is_empty}
use not_so_simple_software_f.Store.States.{
  ReviewVerdict, approve, verdict_none, request_changes, verdict_blocked,
}
use not_so_simple_software_f.Merge.Request.{Urls, PullRequest, parse_pull_request_url}
use not_so_simple_software_f.Merge.Rows.{
  MergeSession, Ledger, review_verdict_of, is_approval, is_merged,
}
use not_so_simple_software_f.Merge.{
  Checks, unreadable, failing, GitHub, Call, reads_checks, merges, after_merge, after_checks,
  is_due, is_mergeable, for_session, maybe_auto_merge,
}

-- Why a pull request of a Work may be read and merged at a commit.
pub record Due (urls : Urls) (work : ℕ) (db : Ledger) (pr : PullRequest) (sha : String)
    : Type 0 where
  pub session : MergeSession
  pub found : find_row (λ s. s.id == work) db.sessions ≡ some session
  pub opted_in : str_eq session.delivery "pr+automerge" ≡ true
  pub verified : str_eq session.delivery_verification_source "server-github" ≡ true
  pub reviewed :
      (str_eq session.assurance "fast" ≡ true) ⊎ (review_verdict_of db session.id ≡ approve)
  pub at_head : sha ≡ session.pull_request_head_sha
  pub has_head : is_empty sha ≡ false
  pub parsed : parse_pull_request_url urls session.pull_request_url ≡ some pr
  pub unmerged : exists_where (is_merged session.id) db.updates ≡ false

-- Of a call: it is due, and a merge comes after checks none of which fails.
abbrev pub Justified : Urls → GitHub → ℕ → Ledger → Call → Type 0
Justified urls github work db (reads_checks pr sha) = Due urls work db pr sha
Justified urls github work db (merges pr sha) =
    Due urls work db pr sha × (github.failing_checks pr sha ≡ failing [])

is_approval-approve : (verdict : ReviewVerdict) → is_approval verdict ≡ true → verdict ≡ approve
is_approval-approve verdict_none h = cc
is_approval-approve approve h = refl
is_approval-approve request_changes h = cc
is_approval-approve verdict_blocked h = cc

||-cases : (a b : Bool) → (a || b) ≡ true → (a ≡ true) ⊎ (b ≡ true)
||-cases true b h = inl refl
||-cases false b h = inr h

after_checks-Justified :
    (urls : Urls) (github : GitHub) (now work : ℕ) (db : Ledger) (s : MergeSession)
    (pr : PullRequest) (answer : Checks)
    → Due urls work db pr s.pull_request_head_sha
    → github.failing_checks pr s.pull_request_head_sha ≡ answer
    → All (Justified urls github work db) (after_checks github now s pr db answer).calls
after_checks-Justified urls github now work db s pr (unreadable reason) due e = (due, tt)
after_checks-Justified urls github now work db s pr (failing (check ∷ rest)) due e = (due, tt)
after_checks-Justified urls github now work db s pr (failing []) due e =
    go (github.merge_pull_request pr s.pull_request_head_sha)
  where
    go :
        (refusal : Option String)
        → All (Justified urls github work db) (after_merge now s pr db refusal).calls
    go none = (due, ((due, e), tt))
    go (some reason) = (due, ((due, e), tt))

is_due-facts :
    (db : Ledger) (s : MergeSession)
    → is_due db s ≡ true
    → (str_eq s.delivery "pr+automerge" ≡ true)
      × (str_eq s.delivery_verification_source "server-github" ≡ true)
      × ((str_eq s.assurance "fast" ≡ true) ⊎ (review_verdict_of db s.id ≡ approve))
unfolding is_due
is_due-facts db s h =
    let opted = str_eq s.delivery "pr+automerge" in
    let verified = str_eq s.delivery_verification_source "server-github" in
    let fast = str_eq s.assurance "fast" in
    let approved = is_approval (review_verdict_of db s.id) in
    let first = &&-left (opted && verified) (fast || approved) h in
    (
      &&-left opted verified first,
      &&-right opted verified first,
      elim (||-cases fast approved (&&-right (opted && verified) (fast || approved) h)) [
        | inl quick ↦ inl quick
        | inr reviewed ↦ inr (is_approval-approve _ reviewed)
      ],
    )

pub is_mergeable-facts :
    (db : Ledger) (s : MergeSession)
    → is_mergeable db s ≡ true
    → (is_empty s.pull_request_head_sha ≡ false)
      × (exists_where (is_merged s.id) db.updates ≡ false)
unfolding is_mergeable
is_mergeable-facts db s h = ground (arith, h)

for_session-Justified :
    (urls : Urls) (github : GitHub) (now work : ℕ) (db : Ledger) (s : MergeSession)
    → find_row (λ s. s.id == work) db.sessions ≡ some s
    → All (Justified urls github work db) (for_session urls (some github) now (some s) db).calls
for_session-Justified urls github now work db s found = elim (Bool-cases (is_due db s)) [
  | inr early ↦ rw early tt
  | inl due ↦ elim (Bool-cases (is_mergeable db s)) [
    | inr not_yet ↦ rw (due, not_yet) tt
    | inl may ↦ elim (Option-cases (parse_pull_request_url urls s.pull_request_url)) [
      | inl malformed ↦ rw (due, may, malformed) tt
      | inr (pr, parsed) ↦
          let (opted, verified, reviewed) = is_due-facts db s due in
          let (has_head, unmerged) = is_mergeable-facts db s may in
          rw (due, may, parsed)
            (after_checks-Justified urls github now work db s pr _
              (record {
                session = s;
                found = found;
                opted_in = opted;
                verified = verified;
                reviewed = reviewed;
                at_head = refl;
                has_head = has_head;
                parsed = parsed;
                unmerged = unmerged;
              })
              refl)
    ]
  ]
]

-- Whatever is asked of GitHub is due: the Work opted in to automatic merges, the server itself verified the
-- delivery, the Work is fast or its highest verdict approves, the commit is the delivered one, and the Work
-- has no merge yet. A merge is asked for only after its checks were read and none of them failed.
pub maybe_auto_merge-Justified :
    (urls : Urls) (github : GitHub) (now work : ℕ) (db : Ledger)
    → All (Justified urls github work db) (maybe_auto_merge urls (some github) now work db).calls
unfolding maybe_auto_merge
maybe_auto_merge-Justified urls github now work db =
    elim (Option-cases (find_row (λ s. s.id == work) db.sessions)) [
      | inl missing ↦ rw missing tt
      | inr (s, found) ↦ rw found (for_session-Justified urls github now work db s found)
    ]
