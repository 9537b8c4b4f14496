-- ===== src/Worker/Claiming/Counts.antt =====
-- How many claimers hold a slot, hold the reservation, or run an attempt, and what a step does to these
-- numbers.
use not_so_simple_software_f.Prelude.{
  ℕ, zero, suc, ◌+◌, ◌≤◌, ◌≡◌, ap, Bool, true, false, some, List, [], ◌∷◌, ◌++◌, arith, ◌==◌,
  get_elem?, set,
}
use not_so_simple_software_f.Service.Laws.{some-injective}
use not_so_simple_software_f.Worker.Manager.{Manager}
use not_so_simple_software_f.Worker.Claiming.{
  Phase, accepted, refilling, running, completed, leaving, unreserving, gone, mem,
}

abbrev pub tally : Bool → ℕ
tally true = 1
tally false = 0

module _ {ℓ} {A : Type ℓ} (p : A → Bool) where
  abbrev pub count : List A → ℕ
  count [] = 0
  count (x ∷ xs) = tally (p x) + count xs

  pub count-append : (xs ys : List A) → count (xs ++ ys) ≡ count xs + count ys
  count-append [] ys = omega arith
  count-append (x ∷ xs) ys = omega (arith, count-append xs ys)

  pub count-set :
      (xs : List A) (i : ℕ) (old new : A)
      → get_elem? xs i ≡ some old
      → count (set xs i new) + tally (p old) ≡ count xs + tally (p new)
  count-set [] i old new h = cc
  count-set (x ∷ xs) zero old new h =
      let e : x ≡ old = some-injective h in
      let f : tally (p x) ≡ tally (p old) = ap (λ y. tally (p y)) e in omega (arith, f)
  count-set (x ∷ xs) (suc i) old new h = omega (arith, count-set xs i old new h)

-- The claimers that have put a value into the channel of slots and not taken it out.
abbrev pub holds_slot : Phase → Bool
holds_slot (leaving a) = false
holds_slot unreserving = false
holds_slot (gone a) = false
holds_slot _ = true

-- The claimers for which `claiming` is set: their request is being prepared, made or settled.
abbrev pub holds_claim : Phase → Bool
holds_claim (refilling a) = false
holds_claim (running a) = false
holds_claim (completed a) = false
holds_claim (leaving a) = false
holds_claim (gone a) = false
holds_claim _ = true

-- The claimers that run an attempt, or have run it.
abbrev pub ran : ℕ → Phase → Bool
ran a (accepted b) = a == b
ran a (refilling b) = a == b
ran a (running b) = a == b
ran a (completed b) = a == b
ran a (leaving b) = a == b
ran a (gone (some b)) = a == b
ran a _ = false

-- What a step adds to the numbers, with what it takes from them on the other side.
pub record Counted (max_concurrent : ℕ) (m : Manager) (p : Phase) (n : Manager) (q : Phase)
    (new : List Phase) : Type 0 where
  pub slots : n.slots + tally (holds_slot p) ≡ m.slots + tally (holds_slot q) + count holds_slot new
  pub bound : n.slots ≤ max_concurrent
  pub claims :
      tally n.claiming + tally (holds_claim p)
      ≡ tally m.claiming + tally (holds_claim q) + count holds_claim new
  pub runs :
      (a : ℕ)
      → tally (ran a q) + count (ran a) new + tally (mem a m.seen)
        ≤ tally (ran a p) + tally (mem a n.seen)

-- A step that changes neither the numbers nor the place among them.
pub record Quiet (m : Manager) (p : Phase) (n : Manager) (q : Phase) : Type 0 where
  pub slots : n.slots ≡ m.slots
  pub claiming : n.claiming ≡ m.claiming
  pub seen : n.seen ≡ m.seen
  pub slot : holds_slot q ≡ holds_slot p
  pub claim : holds_claim q ≡ holds_claim p
  pub run : (a : ℕ) → ran a q ≡ ran a p

pub Quiet-Counted :
    (max_concurrent : ℕ) (m : Manager) (p : Phase) (n : Manager) (q : Phase)
    → m.slots ≤ max_concurrent
    → Quiet m p n q
    → Counted max_concurrent m p n q []
Quiet-Counted max_concurrent m p n q bound h = record {
  slots = let e = ap tally h.slot in omega (arith, h.slots, e);
  bound = omega (arith, bound, h.slots);
  claims = let e = ap tally h.claim in let f = ap tally h.claiming in omega (arith, e, f);
  runs = λ a.
      let e = ap tally (h.run a) in let f = ap (λ s. tally (mem a s)) h.seen in omega (arith, e, f);
}
