-- ===== src/Stage/Report/Join.antt =====
-- Texts put one after another: what is trimmed from them, and where a separator stands last.
use Prim.Native.Char.{Char, code}
use not_so_simple_software_f.Prelude.{
  ℕ, ◌≡◌, refl, ap, ◌∙◌, Bool, true, false, ◌||◌, String, Option, none, some, arith, ◌==◌,
  if◌then◌else◌,
}
use not_so_simple_software_f.Cron.Text.{is_empty}
use not_so_simple_software_f.Planning.Keys.{trim_space, trim_left, trim_right, drop_space}
use not_so_simple_software_f.Store.Events.{is_space}
use not_so_simple_software_f.Review.{after_prefix}
use not_so_simple_software_f.Stage.Report.{cut_last}

-- One text after another.
abbrev pub join : String → String → String
join String.[] text = text
join (String.◌∷◌ c front) text = String.◌∷◌ c (join front text)

-- The dashes: hyphen, en dash and em dash.
abbrev pub is_dash : ℕ → Bool
is_dash c = c == b'-' || c == 0x2013 || c == 0x2014

unfoldable pub has_dash : String → Bool
has_dash String.[] = false
has_dash (String.◌∷◌ c text) = is_dash (code c) || has_dash text

abbrev pub starts_with_space : String → Bool
starts_with_space String.[] = true
starts_with_space (String.◌∷◌ c text) = is_space (code c)

pub join-nil : (text : String) → join text "" ≡ text
join-nil String.[] = refl
join-nil (String.◌∷◌ c text) = ap (λ t. String.◌∷◌ c t) (join-nil text)

pub is_empty-join :
    (front back : String) → is_empty back ≡ false → is_empty (join front back) ≡ false
is_empty-join String.[] back h = h
is_empty-join (String.◌∷◌ c front) back h = refl

pub drop_space-some :
    (b : Bool) (rest whole : String) → is_empty rest ≡ false → drop_space b rest whole ≡ whole
unfolding drop_space
drop_space-some true String.[] whole h = cc
drop_space-some true (String.◌∷◌ c rest) whole h = refl
drop_space-some false rest whole h = refl

-- No space is trimmed from a text whose end has none.
pub trim_right-join :
    (front back : String)
    → is_empty back ≡ false
    → trim_right back ≡ back
    → trim_right (join front back) ≡ join front back
unfolding trim_right
trim_right-join String.[] back some_text ends = ends
trim_right-join (String.◌∷◌ c front) back some_text ends =
    ap (λ t. drop_space (is_space (code c)) t (String.◌∷◌ c t))
      (trim_right-join front back some_text ends)
    ∙ drop_space-some (is_space (code c)) (join front back) _ (is_empty-join front back some_text)

pub trim_left-start : (text : String) → starts_with_space text ≡ false → trim_left text ≡ text
unfolding trim_left
trim_left-start String.[] h = refl
trim_left-start (String.◌∷◌ c text) h = rw (trim_left, h) refl

pub trim_space-whole :
    (text : String)
    → starts_with_space text ≡ false
    → trim_right text ≡ text
    → trim_space text ≡ text
unfolding trim_space
trim_space-whole text starts ends = ap trim_right (trim_left-start text starts) ∙ ends

pub starts-join :
    (front back : String)
    → is_empty front ≡ false
    → starts_with_space front ≡ false
    → starts_with_space (join front back) ≡ false
starts-join String.[] back some_text h = cc
starts-join (String.◌∷◌ c front) back some_text h = h

pub cut_last-join :
    (front back : String) (separator before after : String)
    → cut_last separator back ≡ some (record { before = before; after = after })
    → cut_last separator (join front back)
      ≡ some (record { before = join front before; after = after })
unfolding cut_last
cut_last-join String.[] back separator before after h = h
cut_last-join (String.◌∷◌ c front) back separator before after h =
    rw (cut_last-join front back separator before after h) refl

abbrev pub starts_with_dash : String → Bool
starts_with_dash String.[] = false
starts_with_dash (String.◌∷◌ c text) = is_dash (code c)

pub starts_with_dash-join :
    (front back : String)
    → has_dash front ≡ false
    → starts_with_dash back ≡ false
    → starts_with_dash (join front back) ≡ false
unfolding has_dash
starts_with_dash-join String.[] back h k = k
starts_with_dash-join (String.◌∷◌ c front) back h k = ground (arith, h)

pub dash-other : (d x : ℕ) → is_dash d ≡ true → is_dash x ≡ false → (d == x) ≡ false
dash-other d x h k = ground (arith, h, k)

pub if-none {ℓ} : {A : Type ℓ} (b : Bool) (o : Option A) → o ≡ none → (if b then o else none) ≡ none
if-none true o h = h
if-none false o h = refl

-- A separator with a dash after its first character stands nowhere in a text without dashes.
pub after_prefix-dashless :
    (a d : Char) (rest : String) (c : Char) (text : String)
    → is_dash (code d) ≡ true
    → starts_with_dash text ≡ false
    → after_prefix (String.◌∷◌ a (String.◌∷◌ d rest)) (String.◌∷◌ c text) ≡ none
unfolding after_prefix
after_prefix-dashless a d rest c String.[] h k = if-none (code a == code c) none refl
after_prefix-dashless a d rest c (String.◌∷◌ x text) h k =
    if-none (code a == code c) _ (rw (dash-other (code d) (code x) h k) refl)

pub cut_last-dashless :
    (a d : Char) (rest : String) (front back : String)
    → is_dash (code d) ≡ true
    → has_dash front ≡ false
    → starts_with_dash back ≡ false
    → cut_last (String.◌∷◌ a (String.◌∷◌ d rest)) back ≡ none
    → cut_last (String.◌∷◌ a (String.◌∷◌ d rest)) (join front back) ≡ none
unfolding cut_last has_dash
cut_last-dashless a d rest String.[] back h k l m = m
cut_last-dashless a d rest (String.◌∷◌ c front) back h k l m =
    let clean : has_dash front ≡ false = ground (arith, k) in
    rw (cut_last-dashless a d rest front back h clean l m) (
      rw
        (after_prefix-dashless a d rest c (join front back) h
          (starts_with_dash-join front back clean l))
        refl)
