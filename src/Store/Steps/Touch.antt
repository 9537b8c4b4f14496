-- ===== src/Store/Steps/Touch.antt =====
-- What a transaction does to the table of attempts: it updates the row of one active attempt, or none.
use native.Mathlib.Decide.{ℕ_discrete}
use not_so_simple_software_f.Prelude.{
  ℕ, ◌≡◌, ◌≢◌, refl, ap, ◌∙◌, Bool, true, false, List, some, arith, if◌then◌else◌,
}
use not_so_simple_software_f.Table.{update_where}
use not_so_simple_software_f.Table.Laws.{updated, find_row-update_same, find_row-update_other}
use not_so_simple_software_f.Store.States.{is_active, is_terminal}
use not_so_simple_software_f.Store.Rows.{Attempt}
use not_so_simple_software_f.Store.Lockstep.{attempt_at}
use not_so_simple_software_f.Store.Steps.{Moves, stays}

pub record Touch (before after : List Attempt) : Type 0 where
  pub id : ℕ
  pub attempt : Attempt
  pub has_attempt : attempt_at before id ≡ some attempt
  pub active : is_active attempt.state ≡ true
  pub test : Attempt → Bool
  pub change : Attempt → Attempt
  pub key : (a : Attempt) → (change a).id ≡ a.id
  pub only : (a : Attempt) → test a ≡ true → a.id ≡ id
  pub moves : (a : Attempt) → test a ≡ true → Moves a.state (change a).state
  pub written : after ≡ update_where test change before

module _ (before after : List Attempt) (touch : Touch before after) where
  -- The row of every other attempt stays as it is.
  pub touch_other : (i : ℕ) → i ≢ touch.id → attempt_at after i ≡ attempt_at before i
  touch_other i ne =
      ap (λ rows. attempt_at rows i) touch.written
      ∙ find_row-update_other (λ a. a.id) i touch.id touch.test touch.change before touch.key
          touch.only ne

  pub touch_same : attempt_at after touch.id ≡ some (updated touch.test touch.change touch.attempt)
  touch_same =
      ap (λ rows. attempt_at rows touch.id) touch.written
      ∙ find_row-update_same (λ a. a.id) touch.id touch.test touch.change before touch.attempt
          touch.key touch.has_attempt

  -- A terminal attempt is not the one that is touched.
  pub touch_terminal :
      (i : ℕ) (a : Attempt)
      → attempt_at before i ≡ some a
      → is_terminal a.state ≡ true
      → attempt_at after i ≡ some a
  touch_terminal i a h terminal = elim (ℕ_discrete i touch.id) [
    | yes same ↦ absurd (ground (arith, touch.has_attempt, touch.active))
    | no ne ↦ touch_other i ne ∙ h
  ]

  move_if :
      (t : Bool) (a b : Attempt)
      → (t ≡ true → Moves a.state b.state)
      → Moves a.state (if t then b else a).state
  move_if true a b m = m refl
  move_if false a b m = stays

  -- Every attempt stays there, and makes a move.
  pub touch-Moves :
      (i : ℕ) (a : Attempt)
      → attempt_at before i ≡ some a
      → (b : Attempt) × (attempt_at after i ≡ some b) × Moves a.state b.state
  touch-Moves i a h = elim (ℕ_discrete i touch.id) [
    | yes same ↦ (
      updated touch.test touch.change a,
      ground (arith, touch_same, touch.has_attempt),
      move_if (touch.test a) a (touch.change a) (touch.moves a),
    )
    | no ne ↦ (a, touch_other i ne ∙ h, stays)
  ]
