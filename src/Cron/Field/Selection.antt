-- ===== src/Cron/Field/Selection.antt =====
-- The values that a cron field which was parsed allows are those that its items name.
use not_so_simple_software_f.Prelude.{
  ℕ, zero, suc, ◌-◌, ◌≤◌, ◌<◌, ◌≡◌, ◌↔◌, refl, sym, ap, subst, ◌∙◌, ◌⊎◌, inl, inr, Bool, true,
  false, String, List, [], ◌∷◌, get_or, length, replicate, length-replicate, arith, if-cases,
}
use not_so_simple_software_f.Cron.Text.{split, is_empty}
use not_so_simple_software_f.Cron.Field.{
  parsed, Names, Item, parse_item, mark_item, mark_items, CronField, selects_any, if_any,
  parse_cron_field,
}
use not_so_simple_software_f.Cron.Field.Laws.{>>=-eq-parsed, NamesFit, parse_item-Fits}
use not_so_simple_software_f.Cron.Field.Marks.{Walked, Marks, mark_item-Marks, parsed-injective}

-- Some item of a list names the value.
pub data Selected (names : Names) (minimum maximum : ℕ) (sunday_seven : Bool) (v : ℕ)
    : List String → Type 0 where
  first :
      {text : String} {rest : List String} (item : Item)
      → parse_item names minimum maximum text ≡ parsed item
      → Walked sunday_seven item.end item.step item.start v
      → Selected names minimum maximum sunday_seven v (text ∷ rest)
  later :
      {text : String} {rest : List String}
      → Selected names minimum maximum sunday_seven v rest
      → Selected names minimum maximum sunday_seven v (text ∷ rest)

module _ (names : Names) (minimum maximum : ℕ) (sunday_seven : Bool) (fit : NamesFit maximum names)
    (le : minimum ≤ maximum) where
  record MarksAll (texts : List String) (allowed out : List Bool) : Type 0 where
    same_length : length out ≡ length allowed
    sound :
        (v : ℕ)
        → get_or out v false ≡ true
        → (get_or allowed v false ≡ true) ⊎ Selected names minimum maximum sunday_seven v texts
    keeps : (v : ℕ) → get_or allowed v false ≡ true → get_or out v false ≡ true
    complete :
        (v : ℕ) → Selected names minimum maximum sunday_seven v texts → get_or out v false ≡ true

  MarksAll-none : (allowed : List Bool) → MarksAll [] allowed allowed
  MarksAll-none allowed = record {
    same_length = refl;
    sound = λ v h. inl h;
    keeps = λ v h. h;
    complete = λ v s. elim s [ ];
  }

  MarksAll-more :
      (text : String) (rest : List String) (item : Item) (allowed mid out : List Bool)
      → parse_item names minimum maximum text ≡ parsed item
      → Marks sunday_seven item.end item.step item.start allowed mid
      → MarksAll rest mid out
      → MarksAll (text ∷ rest) allowed out
  MarksAll-more text rest item allowed mid out hi m all = record {
    same_length = all.same_length ∙ m.same_length;
    sound = λ v h. elim (all.sound v h) [
      | inl old ↦ elim (m.sound v old) [ inl older ↦ inl older | inr w ↦ inr (first item hi w) ]
      | inr s ↦ inr (later s)
    ];
    keeps = λ v h. all.keeps v (m.keeps v h);
    complete = λ v s. elim s [
      | first other ho w ↦ all.keeps v (
          m.complete v (
            subst (λ i. Walked sunday_seven i.end i.step i.start v) (parsed-injective (sym ho ∙ hi))
              w))
      | later s ↦ all.complete v s
    ];
  }

  mark_items-MarksAll :
      (texts : List String) (allowed out : List Bool)
      → maximum < length allowed
      → mark_items names minimum maximum sunday_seven texts allowed ≡ parsed out
      → MarksAll texts allowed out
  unfolding mark_items
  mark_items-MarksAll [] allowed out room h =
      subst (MarksAll [] allowed) (parsed-injective h) (MarksAll-none allowed)
  mark_items-MarksAll (text ∷ rest) allowed out room h =
      let (item, hi, h1) = >>=-eq-parsed (parse_item names minimum maximum text) _ h in
      let (mid, hm, h2) = >>=-eq-parsed (mark_item sunday_seven item allowed) _ h1 in
      let (f, up) = parse_item-Fits names minimum maximum text item fit le hi in
      let m = mark_item-Marks sunday_seven item allowed mid up (omega (arith, f.inside, room)) hm in
      MarksAll-more text rest item allowed mid out hi m
        (mark_items-MarksAll rest mid out (omega (arith, room, m.same_length)) h2)

get_or-replicate : (n v : ℕ) → get_or (replicate n false) v false ≡ false
get_or-replicate zero v = refl
get_or-replicate (suc n) zero = refl
get_or-replicate (suc n) (suc v) = get_or-replicate n v

if_any-allowed :
    (any : Bool) (field out : CronField)
    → if_any any field ≡ parsed out
    → field.allowed ≡ out.allowed
if_any-allowed true field out h = ap (λ f. f.allowed) (parsed-injective h)
if_any-allowed false field out h = cc

parse_cron_field-marked :
    (names : Names) (minimum maximum : ℕ) (sunday_seven : Bool) (value : String) (field : CronField)
    → parse_cron_field names minimum maximum sunday_seven value ≡ parsed field
    → mark_items names minimum maximum sunday_seven
        (split b',' value)
        (replicate (suc maximum) false)
      ≡ parsed field.allowed
unfolding parse_cron_field
parse_cron_field-marked names minimum maximum sunday_seven value field h =
    let items = split b',' value in
    let blank = replicate (suc maximum) false in
    elim (if-cases (is_empty value) _ _ h) [
      | inl (_, e) ↦ cc
      | inr (_, e) ↦
          let (allowed, hm, e1) =
            >>=-eq-parsed (mark_items names minimum maximum sunday_seven items blank) _ e in
          let same : allowed ≡ field.allowed =
            if_any-allowed (selects_any (suc maximum - minimum) minimum allowed) _ field e1 in
          hm ∙ ap parsed same
    ]

-- A field that was parsed allows a value when and only when one of the items between its commas walks
-- over it, from the item's start by its step to its end, where 7 counts as 0 in the field of weekdays.
pub parse_cron_field-Selected :
    (names : Names) (minimum maximum : ℕ) (sunday_seven : Bool) (value : String) (field : CronField)
    (v : ℕ)
    → NamesFit maximum names
    → minimum ≤ maximum
    → parse_cron_field names minimum maximum sunday_seven value ≡ parsed field
    → (get_or field.allowed v false ≡ true)
      ↔ Selected names minimum maximum sunday_seven v (split b',' value)
parse_cron_field-Selected names minimum maximum sunday_seven value field v fit le h =
    let blank = replicate (suc maximum) false in
    let all =
      mark_items-MarksAll names minimum maximum sunday_seven fit le (split b',' value) blank
        field.allowed (omega (arith, length-replicate (suc maximum) false))
        (parse_cron_field-marked names minimum maximum sunday_seven value field h) in
    (
      λ allowed. elim (all.sound v allowed) [
        | inl old ↦ absurd (ground (arith, old, get_or-replicate (suc maximum) v))
        | inr s ↦ s
      ],
      λ s. all.complete v s,
    )
