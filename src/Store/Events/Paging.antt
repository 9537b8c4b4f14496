-- ===== src/Store/Events/Paging.antt =====
-- Reading the log of an attempt page by page.
use not_so_simple_software_f.Prelude.{
  ℕ, zero, suc, ◌≤◌, ◌<◌, ◌≡◌, refl, sym, ap, ◌∙◌, ◌++◌, Bool, true, false, not, ◌||◌, ◌&&◌, Option,
  none, some, List, [], ◌∷◌, ltb, ◌==◌, ℤ, pos, negsuc, length, take, drop, take-append-drop,
  length-take, length-drop, arith, if◌then◌else◌, Bool-cases, inl, inr, ◌⊎◌,
}
use not_so_simple_software_f.Table.{select, exists_where}
use not_so_simple_software_f.Service.{ok}
use not_so_simple_software_f.Service.Laws.{refuse_if-eq-ok, ok-injective}
use not_so_simple_software_f.Store.Rows.{AttemptEvent, Db}
use not_so_simple_software_f.Store.Events.{max_event_page_size, of_attempt, exceeds, log}
use not_so_simple_software_f.Store.Events.Log.{Follows}
use not_so_simple_software_f.Store.Events.Page.{
  AttemptEventPage, is_invalid_after, is_past, insert_by_sequence, order_by_sequence, next_after,
  page_of, events,
}

-- A log that follows a number follows any smaller one.
Follows-weaker :
    (m : Option ℕ) (n : ℕ) (xs : List AttemptEvent)
    → exceeds n m ≡ true
    → Follows (some n) xs
    → Follows m xs
Follows-weaker m n [] past h = tt
Follows-weaker none n (x ∷ xs) past h = (refl, h.1)
Follows-weaker (some k) n (x ∷ xs) past h = (ground (arith, past, h.0), h.1)

Follows-select :
    (m : Option ℕ) (p : AttemptEvent → Bool) (xs : List AttemptEvent)
    → Follows m xs
    → Follows m (select p xs)
Follows-select m p [] h = tt
Follows-select m p (x ∷ xs) h = elim (Bool-cases (p x)) [
  | inl yes_kept ↦ rw yes_kept (h.0, Follows-select (some x.sequence) p xs h.1)
  | inr not_kept ↦ rw not_kept (Follows-select m p xs (Follows-weaker m x.sequence xs h.0 h.1))
]

insert_by_sequence-first :
    (e : AttemptEvent) (xs : List AttemptEvent)
    → Follows (some e.sequence) xs
    → insert_by_sequence e xs ≡ e ∷ xs
unfolding insert_by_sequence
insert_by_sequence-first e [] h = refl
insert_by_sequence-first e (x ∷ xs) h = ground (arith, h.0)

-- An ordered log is its own sort.
order_by_sequence-ordered :
    (m : Option ℕ) (xs : List AttemptEvent) → Follows m xs → order_by_sequence xs ≡ xs
unfolding order_by_sequence
order_by_sequence-ordered m [] h = refl
order_by_sequence-ordered m (x ∷ xs) h =
    rw (order_by_sequence-ordered (some x.sequence) xs h.1) (insert_by_sequence-first x xs h.1)

select-&& :
    (p q : AttemptEvent → Bool) (xs : List AttemptEvent)
    → select (λ e. p e && q e) xs ≡ select q (select p xs)
select-&& p q [] = refl
select-&& p q (x ∷ xs) = ground (arith, select-&& p q xs)

-- Of a log that follows a number, all events are past it.
select-is_past :
    (n : ℕ) (xs : List AttemptEvent) → Follows (some n) xs → select (is_past (pos n)) xs ≡ xs
select-is_past n [] h = refl
select-is_past n (x ∷ xs) h =
    rw h.0 (ap (λ r. x ∷ r) (select-is_past n xs (Follows-weaker (some n) x.sequence xs h.0 h.1)))

-- Where a page of `n` events ends, and what is left after it.
record Ends (k n : ℕ) (xs : List AttemptEvent) : Type 0 where
  at : ℕ
  next : next_after (pos k) (take n xs) ≡ pos at
  not_less : k ≤ at
  left : select (is_past (pos at)) xs ≡ drop n xs

Ends-of : (k n : ℕ) (xs : List AttemptEvent) → Follows (some k) xs → Ends k n xs
Ends-of k zero xs h = record {
  at = k;
  next = refl;
  not_less = ground arith;
  left = select-is_past k xs h;
}
Ends-of k (suc n) [] h = record { at = k; next = refl; not_less = ground arith; left = refl }
Ends-of k (suc n) (x ∷ xs) h =
    let e = Ends-of x.sequence n xs h.1 in
    record {
      at = e.at;
      next = e.next;
      not_less = ground (arith, e.not_less, h.0);
      left = ground (arith, e.not_less, e.left);
    }

select-narrower :
    (p q : AttemptEvent → Bool) (xs : List AttemptEvent)
    → ((e : AttemptEvent) → q e ≡ true → p e ≡ true)
    → select q (select p xs) ≡ select q xs
select-narrower p q [] within = refl
select-narrower p q (x ∷ xs) within = ground (arith, select-narrower p q xs within, within x)

select-head :
    (p : AttemptEvent → Bool) (xs : List AttemptEvent) (x : AttemptEvent) (rest : List AttemptEvent)
    → select p xs ≡ x ∷ rest
    → p x ≡ true
select-head p [] x rest h = cc
select-head p (y ∷ xs) x rest h = ground (arith, select-head p xs x rest)

later_past :
    (after : ℤ) (x : AttemptEvent) (at : ℕ)
    → is_past after x ≡ true
    → x.sequence ≤ at
    → (y : AttemptEvent) → is_past (pos at) y ≡ true
    → is_past after y ≡ true
later_past (negsuc n) x at first le y h = refl
later_past (pos n) x at first le y h = ground (arith, first, le, h)

take-take {ℓ} : {A : Type ℓ} (n : ℕ) (xs : List A) → take n (take (suc n) xs) ≡ take n xs
take-take zero xs = refl
take-take (suc n) [] = refl
take-take (suc n) (x ∷ xs) = rw (take-take n xs)

take-more {ℓ} : {A : Type ℓ} (n : ℕ) (xs : List A) → length xs ≤ n → take (suc n) xs ≡ take n xs
take-more zero [] h = refl
take-more (suc n) [] h = refl
take-more zero (x ∷ xs) h = absurd (ground (arith, h))
take-more (suc n) (x ∷ xs) h = rw (take-more n xs (ground (arith, h)))

take-longer {ℓ} :
    {A : Type ℓ} (n : ℕ) (xs : List A) → ltb n (length (take (suc n) xs)) ≡ ltb n (length xs)
take-longer n xs = ground (arith, length-take (suc n) xs)

-- The page shows the first `limit` of the events that there are, and says whether there are more.
shown-eq :
    (limit : ℕ) (xs : List AttemptEvent)
    → (if ltb limit (length (take (suc limit) xs))
        then take limit (take (suc limit) xs)
        else take (suc limit) xs)
      ≡ take limit xs
shown-eq limit xs = rw (take-longer limit xs) (elim (Bool-cases (ltb limit (length xs))) [
  | inl more ↦ rw more (take-take limit xs)
  | inr all ↦ rw all (take-more limit xs (ground (arith, all)))
])

-- A page of an ordered list of events, and the events past its end.
page-rest :
    (after : ℤ) (limit : ℕ) (whole xs : List AttemptEvent)
    → select (is_past after) whole ≡ xs
    → Follows none xs
    → 0 < limit
    → select (is_past (next_after after (take limit xs))) whole ≡ drop limit xs
page-rest after (suc limit) whole [] found ordered some_room = found
page-rest after (suc limit) whole (x ∷ xs) found ordered some_room =
    let e = Ends-of x.sequence limit xs ordered.1 in
    let first = select-head (is_past after) whole x xs found in
    let narrower : (y : AttemptEvent) → is_past (pos e.at) y ≡ true → is_past after y ≡ true =
      later_past after x e.at first e.not_less in
    rw e.next (
      sym (select-narrower (is_past after) (is_past (pos e.at)) whole narrower)
      ∙ ap (select (is_past (pos e.at))) found
      ∙ ground (arith, e.not_less, e.left))
page-rest after zero whole xs found ordered some_room = absurd (ground (arith, some_room))

-- A page of an ordered log holds, in order, the next events after the place that was asked for, at most
-- as many as the limit, and the events past its end are all the others: none is missed and none comes
-- twice. It says that there are more when and only when some are left, and then it is full.
pub events-page :
    (db : Db) (id : ℕ) (after : ℤ) (limit : ℕ) (page : AttemptEventPage)
    → events db id after (pos limit) ≡ ok page
    → Follows none (log db id)
    → (page.events ++ select (is_past page.next_after) (log db id)
        ≡ select (is_past after) (log db id))
      × (length page.events ≤ limit)
      × (page.has_more ≡ ltb 0 (length (select (is_past page.next_after) (log db id))))
      × ((page.has_more ≡ false) ⊎ (length page.events ≡ limit))
unfolding events
events-page db id after limit page h ordered =
    let (_, h1) = refuse_if-eq-ok (is_invalid_after after) _ _ h in
    let (room, h2) = refuse_if-eq-ok (ltb limit 1 || ltb max_event_page_size limit) _ _ h1 in
    let (_, h3) = refuse_if-eq-ok (not (exists_where (λ a. a.id == id) db.attempts)) _ _ h2 in
    let found = select (is_past after) (log db id) in
    let follow = Follows-select none (is_past after) (log db id) ordered in
    let sorted : order_by_sequence (select (λ e. of_attempt id e && is_past after e) db.events)
        ≡ found =
      ap order_by_sequence (select-&& (of_attempt id) (is_past after) db.events)
      ∙ order_by_sequence-ordered none found follow in
    let same : page ≡ page_of after limit (take (suc limit) found) =
      sym (ok-injective h3) ∙ ap (λ xs. page_of after limit (take (suc limit) xs)) sorted in
    let shown = ap (λ p. p.events) same ∙ shown-eq limit found in
    let next : page.next_after ≡ next_after after (take limit found) =
      ap (λ p. p.next_after) same ∙ ap (next_after after) (shown-eq limit found) in
    let more : page.has_more ≡ ltb limit (length found) =
      ap (λ p. p.has_more) same ∙ take-longer limit found in
    let rest : select (is_past page.next_after) (log db id) ≡ drop limit found =
      ap (λ n. select (is_past n) (log db id)) next
      ∙ page-rest after limit (log db id) found refl follow (ground (arith, room)) in
    let count : length page.events ≡ length (take limit found) = ap length shown in
    (
      ap (λ xs. xs ++ select (is_past page.next_after) (log db id)) shown
          ∙ ap (λ ys. take limit found ++ ys) rest
          ∙ take-append-drop limit found,
      ground (arith, count, length-take limit found),
      ground (arith, more, ap length rest, length-drop limit found),
      ground (arith, more, count, length-take limit found),
    )
