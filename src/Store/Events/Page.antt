-- ===== src/Store/Events/Page.antt =====
-- Events (factory/internal/controlplane/state.go): one page of an attempt's log.
use not_so_simple_software_f.Prelude.{
  ℕ, suc, Bool, true, false, not, ◌||◌, ◌&&◌, List, [], ◌∷◌, ltb, leb, ◌==◌, ℤ, pos, negsuc, length,
  take, if◌then◌else◌,
}
use not_so_simple_software_f.Table.{select, exists_where}
use not_so_simple_software_f.Service.{Result, ok, err, invalid, err_not_found, refuse_if, ◌>>◌}
use not_so_simple_software_f.Store.Rows.{AttemptEvent, Db}
use not_so_simple_software_f.Store.Events.{max_event_page_size, of_attempt}

pub record AttemptEventPage : Type 0 where
  pub events : List AttemptEvent
  pub next_after : ℤ
  pub has_more : Bool

-- after < -1
abbrev pub is_invalid_after : ℤ → Bool
is_invalid_after (pos n) = false
is_invalid_after (negsuc n) = ltb 0 n

-- sequence > after
abbrev pub is_past : ℤ → AttemptEvent → Bool
is_past (pos n) e = ltb n e.sequence
is_past (negsuc n) e = true

unfoldable pub insert_by_sequence : AttemptEvent → List AttemptEvent → List AttemptEvent
insert_by_sequence e [] = e ∷ []
insert_by_sequence e (x ∷ rest) =
    let later = insert_by_sequence e rest in
    if leb e.sequence x.sequence then e ∷ x ∷ rest else x ∷ later

-- ORDER BY sequence ASC.
unfoldable pub order_by_sequence : List AttemptEvent → List AttemptEvent
unfolding insert_by_sequence
order_by_sequence [] = []
order_by_sequence (e ∷ rest) = insert_by_sequence e (order_by_sequence rest)

-- NextAfter: the last event of the page, or where the page began.
abbrev pub next_after : ℤ → List AttemptEvent → ℤ
next_after after [] = after
next_after after (e ∷ rest) = next_after (pos e.sequence) rest

-- The page of the rows that the query found, one more than the limit where there are that many.
abbrev pub page_of : ℤ → ℕ → List AttemptEvent → AttemptEventPage
page_of after limit rows =
    let shown = if ltb limit (length rows) then take limit rows else rows in
    record {
      events = shown;
      next_after = next_after after shown;
      has_more = ltb limit (length rows);
    }

unfoldable pub events : Db → ℕ → ℤ → ℤ → Result AttemptEventPage
events db id after (negsuc n) = do
  refuse_if (is_invalid_after after) (invalid "invalid_after")
  err (invalid "invalid_limit")
events db id after (pos limit) = do
  refuse_if (is_invalid_after after) (invalid "invalid_after")
  refuse_if (ltb limit 1 || ltb max_event_page_size limit) (invalid "invalid_limit")
  refuse_if (not (exists_where (λ a. a.id == id) db.attempts)) err_not_found
  ok (
      page_of after limit (
        take (suc limit)
          (order_by_sequence (select (λ e. of_attempt id e && is_past after e) db.events))))
