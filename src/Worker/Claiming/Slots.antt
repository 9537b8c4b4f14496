-- ===== src/Worker/Claiming/Slots.antt =====
-- What holds of a Worker's claimers at every moment: their number, the one claim in flight, and that
-- no attempt runs twice.
use not_so_simple_software_f.Prelude.{
  ℕ, zero, suc, ◌+◌, ◌≤◌, ◌≡◌, ap, ◌∙◌, Bool, some, List, [], ◌∷◌, ◌++◌, arith, get_elem?, set,
}
use not_so_simple_software_f.Service.Laws.{some-injective}
use not_so_simple_software_f.Worker.Manager.{Manager, Upkeep}
use not_so_simple_software_f.Worker.Claiming.{
  Phase, mem, Worker, Act, acts, polls, keeps_up, Reach, start, step, reserve_and_claim,
}
use not_so_simple_software_f.Worker.Claiming.Counts.{
  tally, count, count-append, count-set, holds_slot, holds_claim, ran,
}
use not_so_simple_software_f.Worker.Claiming.Keeps.{Upkeep-SameClaims}
use not_so_simple_software_f.Worker.Claiming.Acts.{Act-Counted}
use not_so_simple_software_f.Worker.Claiming.Moves.{reserve_and_claim-Reserved}

pub record Claims (max_concurrent : ℕ) (w : Worker) : Type 0 where
  pub slots : w.manager.slots ≡ count holds_slot w.claimers
  pub bound : w.manager.slots ≤ max_concurrent
  pub claims : tally w.manager.claiming ≡ count holds_claim w.claimers
  pub runs : (a : ℕ) → count (ran a) w.claimers ≤ tally (mem a w.manager.seen)

-- One claimer among them.
count-one :
    (p : Phase → Bool) (claimers : List Phase) (i : ℕ) (phase : Phase)
    → get_elem? claimers i ≡ some phase
    → tally (p phase) ≤ count p claimers
count-one p [] i phase h = cc
count-one p (x ∷ rest) zero phase h =
    let e = ap (λ y. tally (p y)) (some-injective h) in omega (arith, e)
count-one p (x ∷ rest) (suc i) phase h = omega (arith, count-one p rest i phase h)

count-acts :
    (p : Phase → Bool) (claimers new : List Phase) (i : ℕ) (old phase : Phase)
    → get_elem? claimers i ≡ some old
    → count p (set claimers i phase ++ new) + tally (p old)
      ≡ count p claimers + tally (p phase) + count p new
count-acts p claimers new i old phase h =
    omega (arith, count-append p (set claimers i phase) new, count-set p claimers i old phase h)

acts-Claims :
    (max_concurrent : ℕ) {w : Worker} {n : Manager} {p q : Phase} {new : List Phase} (i : ℕ)
    → Claims max_concurrent w
    → get_elem? w.claimers i ≡ some p
    → Act max_concurrent w.manager p n q new
    → Claims max_concurrent (record { manager = n; claimers = set w.claimers i q ++ new })
acts-Claims max_concurrent {w = w} {p = p} {q = q} {new = new} i c at act =
    let slot = count-one holds_slot w.claimers i p at in
    let claim = count-one holds_claim w.claimers i p at in
    let d =
      Act-Counted max_concurrent c.bound (omega (arith, slot, c.slots))
        (omega (arith, claim, c.claims)) act in
    let s = count-acts holds_slot w.claimers new i p q at in
    let r = count-acts holds_claim w.claimers new i p q at in
    record {
      slots = omega (arith, s, c.slots, d.slots);
      bound = d.bound;
      claims = omega (arith, r, c.claims, d.claims);
      runs = λ a.
          let e = count-acts (ran a) w.claimers new i p q at in
          let f = c.runs a in let g = d.runs a in omega (arith, e, f, g);
    }

polls-Claims :
    (max_concurrent : ℕ) (w : Worker)
    → Claims max_concurrent w
    → Claims max_concurrent (record {
      manager = (reserve_and_claim max_concurrent w.manager).manager;
      claimers = w.claimers ++ (reserve_and_claim max_concurrent w.manager).started;
    })
polls-Claims max_concurrent w c =
    let r = reserve_and_claim-Reserved max_concurrent w.manager c.bound in
    let new = (reserve_and_claim max_concurrent w.manager).started in
    record {
      slots = omega (arith, c.slots, r.slots, count-append holds_slot w.claimers new);
      bound = r.bound;
      claims = omega (arith, c.claims, r.claims, count-append holds_claim w.claimers new);
      runs = λ a.
          let e = c.runs a in
          let f = r.runs a in
          let g = count-append (ran a) w.claimers new in
          let k = ap (λ s. tally (mem a s)) r.seen in omega (arith, e, f, g, k);
    }

keeps_up-Claims :
    (max_concurrent : ℕ) (w : Worker) {n : Manager}
    → Claims max_concurrent w
    → Upkeep w.manager n
    → Claims max_concurrent (record w { manager = n })
keeps_up-Claims max_concurrent w c upkeep =
    let h = Upkeep-SameClaims upkeep in
    record {
      slots = h.slots ∙ c.slots;
      bound = omega (arith, h.slots, c.bound);
      claims = ap tally h.claiming ∙ c.claims;
      runs =
          λ a. let e = c.runs a in let f = ap (λ s. tally (mem a s)) h.seen in omega (arith, e, f);
    }

-- In every history of a Worker, from a state in which it holds: the claimers that hold a slot are as many as
-- the channel of slots holds values, and at most as many as it has room for; at most one claim is being
-- made, and `claiming` says whether one is; and each attempt is run by one claimer at most, whatever the
-- control plane answers and whenever health and registration change.
pub Reach-Claims :
    (max_concurrent : ℕ) {v w : Worker}
    → Claims max_concurrent v
    → Reach max_concurrent v w
    → Claims max_concurrent w
Reach-Claims max_concurrent c start = c
Reach-Claims max_concurrent c (step before (acts i at act)) =
    acts-Claims max_concurrent i (Reach-Claims max_concurrent c before) at act
Reach-Claims max_concurrent c (step {w} before polls) =
    polls-Claims max_concurrent w (Reach-Claims max_concurrent c before)
Reach-Claims max_concurrent c (step {w} before (keeps_up upkeep)) =
    keeps_up-Claims max_concurrent w (Reach-Claims max_concurrent c before) upkeep
