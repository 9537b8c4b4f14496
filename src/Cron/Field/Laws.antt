-- ===== src/Cron/Field/Laws.antt =====
-- An item that was parsed walks forward, within its field.
use not_so_simple_software_f.Prelude.{
  ℕ, ◌≤◌, ◌<◌, ◌≡◌, refl, sym, subst, inl, inr, Bool, ◌||◌, String, [], ◌∷◌, Option, none, some,
  ltb, ℤ, pos, negsuc, arith, if-cases,
}
use not_so_simple_software_f.Table.{All}
use not_so_simple_software_f.Cron.Text.{cut, Halves, is_empty, contains, atoi}
use not_so_simple_software_f.Cron.Field.{
  Parsed, parsed, panicked, refused, ◌>>=◌, Names, lookup, in_range, named_or, parse_cron_value,
  Item, at_least_one, parse_step, parse_range, is_star, parse_base, parse_item,
}
use not_so_simple_software_f.Cron.Field.Marks.{parsed-injective}

pub >>=-eq-parsed {ℓ κ} :
    {A : Type ℓ} {B : Type κ} (first : Parsed A) (next : A → Parsed B) {out : B}
    → (first >>= next) ≡ parsed out
    → (value : A) × (first ≡ parsed value) × (next value ≡ parsed out)
>>=-eq-parsed refused next h = cc
>>=-eq-parsed panicked next h = cc
>>=-eq-parsed (parsed value) next h = (value, refl, h)

-- A table whose names stand for values up to a maximum.
abbrev pub NamesFit : ℕ → Names → Type 0
NamesFit maximum names = All (λ p. p.1 ≤ maximum) names

lookup-le :
    (maximum n : ℕ) (value : String) (names : Names)
    → NamesFit maximum names
    → lookup value names ≡ some n
    → n ≤ maximum
lookup-le maximum n value [] fit h = cc
lookup-le maximum n value ((name, k) ∷ rest) fit h =
    ground (arith, h, fit.0, lookup-le maximum n value rest fit.1)

in_range-le :
    (minimum maximum n : ℕ) (number : Option ℤ)
    → in_range minimum maximum number ≡ parsed n
    → n ≤ maximum
in_range-le minimum maximum n none h = cc
in_range-le minimum maximum n (some (negsuc k)) h = cc
in_range-le minimum maximum n (some (pos k)) h = ground (arith, h)

named_or-le :
    (minimum maximum n : ℕ) (named : Option ℕ) (number : Option ℤ)
    → ((k : ℕ) → named ≡ some k → k ≤ maximum)
    → named_or named (in_range minimum maximum number) ≡ parsed n
    → n ≤ maximum
unfolding named_or
named_or-le minimum maximum n none number fit h = in_range-le minimum maximum n number h
named_or-le minimum maximum n (some k) number fit h =
    subst (λ x. x ≤ maximum) (parsed-injective h) (fit k refl)

parse_cron_value-le :
    (names : Names) (minimum maximum n : ℕ) (value : String)
    → NamesFit maximum names
    → parse_cron_value names minimum maximum value ≡ parsed n
    → n ≤ maximum
unfolding parse_cron_value
parse_cron_value-le names minimum maximum n value fit h =
    named_or-le minimum maximum n (lookup value names) (atoi value)
      (λ k found. lookup-le maximum k value names fit found) h

-- An item that was parsed walks forward, within the field.
pub record Fits (maximum step : ℕ) (item : Item) : Type 0 where
  pub forward : item.start ≤ item.end
  pub inside : item.end ≤ maximum
  pub stride : item.step ≡ step

at_least_one-positive : (n : Option ℤ) (step : ℕ) → at_least_one n ≡ parsed step → 0 < step
at_least_one-positive none step h = cc
at_least_one-positive (some (negsuc n)) step h = cc
at_least_one-positive (some (pos n)) step h = ground (arith, h)

parse_step-positive : (halves : Halves) (step : ℕ) → parse_step halves ≡ parsed step → 0 < step
unfolding parse_step
parse_step-positive halves step h = elim (if-cases halves.found _ _ h) [
  | inl (_, e) ↦ elim (if-cases (is_empty halves.after || contains b'/' halves.after) _ _ e) [
    | inl (_, e) ↦ cc
    | inr (_, e) ↦ at_least_one-positive (atoi halves.after) step e
  ]
  | inr (_, e) ↦ subst (λ x. 0 < x) (parsed-injective e) (omega arith)
]

parse_range-Fits :
    (names : Names) (minimum maximum step : ℕ) (halves : Halves) (item : Item)
    → NamesFit maximum names
    → parse_range names minimum maximum step halves ≡ parsed item
    → Fits maximum step item
unfolding parse_range
parse_range-Fits names minimum maximum step halves item fit h =
    let bad = is_empty halves.before || is_empty halves.after || contains b'-' halves.after in
    elim (if-cases bad _ _ h) [
      | inl (_, e) ↦ cc
      | inr (_, e) ↦
          let (start, hs, e1) =
            >>=-eq-parsed (parse_cron_value names minimum maximum halves.before) _ e in
          let (end, he, e2) =
            >>=-eq-parsed (parse_cron_value names minimum maximum halves.after) _ e1 in
          let inside = parse_cron_value-le names minimum maximum end halves.after fit he in
          elim (if-cases (ltb end start) _ _ e2) [
            | inl (_, e) ↦ cc
            | inr (le, e) ↦
                subst (Fits maximum step) (parsed-injective e)
                  (record { forward = ground (arith, le); inside = inside; stride = refl })
          ]
    ]

parse_base-Fits :
    (names : Names) (minimum maximum : ℕ) (base : String) (has_step : Bool) (step : ℕ) (item : Item)
    → NamesFit maximum names
    → minimum ≤ maximum
    → parse_base names minimum maximum base has_step step ≡ parsed item
    → Fits maximum step item
unfolding parse_base
parse_base-Fits names minimum maximum base has_step step item fit le h =
    elim (if-cases (is_star base) _ _ h) [
      | inl (_, e) ↦
          subst (Fits maximum step) (parsed-injective e)
            (record { forward = le; inside = omega arith; stride = refl })
      | inr (_, e) ↦ elim (if-cases (contains b'-' base) _ _ e) [
        | inl (_, e) ↦ parse_range-Fits names minimum maximum step (cut b'-' base) item fit e
        | inr (_, e) ↦
            let (value, hv, e1) = >>=-eq-parsed (parse_cron_value names minimum maximum base) _ e in
            let inside = parse_cron_value-le names minimum maximum value base fit hv in
            subst (Fits maximum step) (parsed-injective e1) (record {
              forward = ground (arith, inside);
              inside = ground (arith, inside);
              stride = refl;
            })
      ]
    ]

pub parse_item-Fits :
    (names : Names) (minimum maximum : ℕ) (text : String) (item : Item)
    → NamesFit maximum names
    → minimum ≤ maximum
    → parse_item names minimum maximum text ≡ parsed item
    → Fits maximum item.step item × (0 < item.step)
unfolding parse_item
parse_item-Fits names minimum maximum text item fit le h = elim (if-cases (is_empty text) _ _ h) [
  | inl (_, e) ↦ cc
  | inr (_, e) ↦
      let (step, hs, e1) = >>=-eq-parsed (parse_step (cut b'/' text)) _ e in
      let f =
        parse_base-Fits names minimum maximum (cut b'/' text).before (cut b'/' text).found step item
          fit le e1 in
      (
        record { forward = f.forward; inside = f.inside; stride = refl },
        subst (λ x. 0 < x) (sym f.stride) (parse_step-positive (cut b'/' text) step hs),
      )
]
