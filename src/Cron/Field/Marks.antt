-- ===== src/Cron/Field/Marks.antt =====
-- What the loop over the candidates of an item marks: the values of its arithmetic progression.
use not_so_simple_software_f.Prelude.{
  ℕ, zero, suc, ◌+◌, ◌*◌, ◌-◌, ◌≤◌, ◌<◌, ◌≡◌, refl, sym, ap, subst, ◌∙◌, ◌⊎◌, inl, inr, Bool, true,
  false, List, [], ◌∷◌, ltb, leb, ◌==◌, set, get_or, length, length-set, arith, if-cases,
  if◌then◌else◌, Bool-cases,
}
use not_so_simple_software_f.Cron.Text.{int_limit}
use not_so_simple_software_f.Cron.Field.{parsed, Item, slot, mark, mark_item}

get_or-set {ℓ} :
    {A : Type ℓ} (xs : List A) (i j : ℕ) (v d : A)
    → i < length xs
    → get_or (set xs i v) j d ≡ (if i == j then v else get_or xs j d)
get_or-set [] i j v d h = absurd (ground (arith, h))
get_or-set (x ∷ xs) zero zero v d h = refl
get_or-set (x ∷ xs) zero (suc j) v d h = ground arith
get_or-set (x ∷ xs) (suc i) zero v d h = ground arith
get_or-set (x ∷ xs) (suc i) (suc j) v d h = ground (arith, get_or-set xs i j v d)

pub parsed-injective {ℓ} : {A : Type ℓ} {a b : A} → parsed a ≡ parsed b → a ≡ b
parsed-injective h = cc

slot-le : (sunday_seven : Bool) (c : ℕ) → slot sunday_seven c ≤ c
slot-le true c = ground arith
slot-le false c = ground arith

-- One of the values from `c` on, `step` apart and up to `end`, is kept at the slot `v`.
pub record Walked (sunday_seven : Bool) (end step c v : ℕ) : Type 0 where
  pub times : ℕ
  pub within : c + times * step ≤ end
  pub kept : slot sunday_seven (c + times * step) ≡ v

Walked-here :
    (sunday_seven : Bool) (end step c v : ℕ)
    → c ≤ end
    → slot sunday_seven c ≡ v
    → Walked sunday_seven end step c v
Walked-here sunday_seven end step c v within kept =
    let same : c ≡ c + 0 * step = ground arith in
    record {
      times = 0;
      within = subst (λ x. x ≤ end) same within;
      kept = ap (slot sunday_seven) (sym same) ∙ kept;
    }

further : (c step k : ℕ) → c + step + k * step ≡ c + suc k * step
further c step k = grind arith

Walked-later :
    (sunday_seven : Bool) (end step c v : ℕ)
    → Walked sunday_seven end step (c + step) v
    → Walked sunday_seven end step c v
Walked-later sunday_seven end step c v w = record {
  times = suc w.times;
  within = subst (λ x. x ≤ end) (further c step w.times) w.within;
  kept = ap (slot sunday_seven) (sym (further c step w.times)) ∙ w.kept;
}

Walked-cases :
    (sunday_seven : Bool) (end step c v : ℕ)
    → Walked sunday_seven end step c v
    → (slot sunday_seven c ≡ v) ⊎ Walked sunday_seven end step (c + step) v
Walked-cases sunday_seven end step c v w = go w.times w.within w.kept
  where
    go :
        (k : ℕ)
        → c + k * step ≤ end
        → slot sunday_seven (c + k * step) ≡ v
        → (slot sunday_seven c ≡ v) ⊎ Walked sunday_seven end step (c + step) v
    go zero within kept =
        let same : c ≡ c + 0 * step = ground arith in inl (ap (slot sunday_seven) same ∙ kept)
    go (suc k) within kept = inr (record {
      times = k;
      within = subst (λ x. x ≤ end) (sym (further c step k)) within;
      kept = ap (slot sunday_seven) (further c step k) ∙ kept;
    })

Walked-none :
    (sunday_seven : Bool) (end step c v : ℕ) → end < c → ¬ (Walked sunday_seven end step c v)
Walked-none sunday_seven end step c v past w = omega (arith, w.within)

-- Where a value was allowed, or is walked over.
pub record Marks (sunday_seven : Bool) (end step c : ℕ) (allowed out : List Bool) : Type 0 where
  pub same_length : length out ≡ length allowed
  pub sound :
      (v : ℕ)
      → get_or out v false ≡ true
      → (get_or allowed v false ≡ true) ⊎ Walked sunday_seven end step c v
  pub keeps : (v : ℕ) → get_or allowed v false ≡ true → get_or out v false ≡ true
  pub complete : (v : ℕ) → Walked sunday_seven end step c v → get_or out v false ≡ true

Marks-done :
    (sunday_seven : Bool) (end step c : ℕ) (allowed : List Bool)
    → end < c
    → Marks sunday_seven end step c allowed allowed
Marks-done sunday_seven end step c allowed past = record {
  same_length = refl;
  sound = λ v h. inl h;
  keeps = λ v h. h;
  complete = λ v w. absurd (Walked-none sunday_seven end step c v past w);
}

Marks-more :
    (sunday_seven : Bool) (end step c : ℕ) (allowed out : List Bool)
    → c ≤ end
    → end < length allowed
    → Marks sunday_seven end step (c + step) (set allowed (slot sunday_seven c) true) out
    → Marks sunday_seven end step c allowed out
Marks-more sunday_seven end step c allowed out within room m =
    let i = slot sunday_seven c in
    let here = slot-le sunday_seven c in
    let read : (v : ℕ)
        → get_or (set allowed i true) v false ≡ (if i == v then true else get_or allowed v false) =
      λ v. get_or-set allowed i v true false (omega (arith, here, within, room)) in
    record {
      same_length = m.same_length ∙ length-set allowed i true;
      sound = λ v h. elim (m.sound v h) [
        | inl old ↦ elim (Bool-cases (i == v)) [
          | inl same ↦ inr (Walked-here sunday_seven end step c v within (ground (arith, same)))
          | inr other ↦ inl (ground (arith, old, read v, other))
        ]
        | inr w ↦ inr (Walked-later sunday_seven end step c v w)
      ];
      keeps = λ v h. m.keeps v (ground (arith, read v, h));
      complete = λ v w. elim (Walked-cases sunday_seven end step c v w) [
        | inl same ↦ m.keeps v (ground (arith, read v, same))
        | inr later ↦ m.complete v later
      ];
    }

-- The loop, where it has fuel for every candidate and does not panic.
mark-Marks :
    (sunday_seven : Bool) (fuel end step c : ℕ) (allowed out : List Bool)
    → end < c + fuel
    → 0 < step
    → end < length allowed
    → mark sunday_seven fuel end step c allowed ≡ parsed out
    → Marks sunday_seven end step c allowed out
unfolding mark
mark-Marks sunday_seven zero end step c allowed out fueled up room h =
    subst (Marks sunday_seven end step c allowed) (parsed-injective h)
      (Marks-done sunday_seven end step c allowed (omega (arith, fueled)))
mark-Marks sunday_seven (suc fuel) end step c allowed out fueled up room h =
    let marked = set allowed (slot sunday_seven c) true in
    elim (if-cases (ltb end c) _ _ h) [
      | inl (past, e) ↦
          subst (Marks sunday_seven end step c allowed) (parsed-injective e)
            (Marks-done sunday_seven end step c allowed (ground (arith, past)))
      | inr (within, e) ↦ elim (if-cases (leb (length allowed) (slot sunday_seven c)) _ _ e) [
        | inl (_, e) ↦ cc
        | inr (_, e) ↦ elim (if-cases (leb int_limit (c + step)) _ _ e) [
          | inl (_, e) ↦ cc
          | inr (_, e) ↦
              Marks-more sunday_seven end step c allowed out (ground (arith, within)) room (
                mark-Marks sunday_seven fuel end step (c + step) marked out
                  (omega (arith, fueled, up)) up
                  (omega (arith, room, length-set allowed (slot sunday_seven c) true)) e)
        ]
      ]
    ]

pub mark_item-Marks :
    (sunday_seven : Bool) (item : Item) (allowed out : List Bool)
    → 0 < item.step
    → item.end < length allowed
    → mark_item sunday_seven item allowed ≡ parsed out
    → Marks sunday_seven item.end item.step item.start allowed out
unfolding mark_item
mark_item-Marks sunday_seven item allowed out up room h =
    mark-Marks sunday_seven (suc item.end - item.start) item.end item.step item.start allowed out
      (omega arith) up room h
