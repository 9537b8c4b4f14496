-- ===== src/Worker/Claiming/Acts.antt =====
-- Each step of a claimer, in numbers.
use not_so_simple_software_f.Prelude.{
  ℕ, ◌-◌, ◌≤◌, ◌≡◌, refl, ap, subst, true, false, List, [], arith,
}
use not_so_simple_software_f.Worker.Manager.{Manager}
use not_so_simple_software_f.Worker.Claiming.{
  Phase, preparing, ending, accepting, mem, remove, reserve_and_claim, Act, randomness_fails,
  begins, is_answered, ends, is_cancelled, rejects, accepts, finishes_reservation, refills, returns,
  frees, claims_again, stops, releases, unreserves,
}
use not_so_simple_software_f.Worker.Claiming.Counts.{
  tally, holds_slot, holds_claim, ran, Counted, Quiet, Quiet-Counted,
}
use not_so_simple_software_f.Worker.Claiming.Moves.{
  reserve_and_claim-Reserved, mark_unhealthy-Quiet, begin_claim-Quiet, settled-Quiet, QuietAfter,
  end_claim-Quiet, accept_claim-Counted, tally-one,
}

-- The shared state stays.
still-Counted :
    (max_concurrent : ℕ) (m : Manager) (p q : Phase)
    → m.slots ≤ max_concurrent
    → holds_slot q ≡ holds_slot p
    → holds_claim q ≡ holds_claim p
    → ((a : ℕ) → ran a q ≡ ran a p)
    → Counted max_concurrent m p m q []
still-Counted max_concurrent m p q bound slot claim run =
    Quiet-Counted max_concurrent m p m q bound
      (record { slots = refl; claiming = refl; seen = refl; slot = slot; claim = claim; run = run })

-- A slot becomes free.
freed-Counted :
    (max_concurrent : ℕ) (m : Manager) (p q : Phase)
    → m.slots ≤ max_concurrent
    → 1 ≤ m.slots
    → holds_slot p ≡ true
    → holds_slot q ≡ false
    → holds_claim q ≡ holds_claim p
    → ((a : ℕ) → ran a q ≡ ran a p)
    → Counted max_concurrent m p (record m { slots = m.slots - 1 }) q []
freed-Counted max_concurrent m p q bound some_slot held given claim run = record {
  slots = rw (held, given) (omega (arith, some_slot));
  bound = omega (arith, bound);
  claims = let e = ap tally claim in omega (arith, e);
  runs = λ a. let e = ap tally (run a) in omega (arith, e);
}

-- The reservation is given back.
unreserved-Counted :
    (max_concurrent : ℕ) (m : Manager) (p q : Phase)
    → m.slots ≤ max_concurrent
    → 1 ≤ tally m.claiming
    → holds_slot q ≡ holds_slot p
    → holds_claim p ≡ true
    → holds_claim q ≡ false
    → ((a : ℕ) → ran a q ≡ ran a p)
    → Counted max_concurrent m p (record m { claiming = false }) q []
unreserved-Counted max_concurrent m p q bound busy slot held given run = record {
  slots = let e = ap tally slot in omega (arith, e);
  bound = bound;
  claims =
      let one : tally m.claiming ≡ 1 = tally-one m.claiming busy in
      rw (held, given) (omega (arith, one));
  runs = λ a. let e = ap tally (run a) in omega (arith, e);
}

-- A claimer goes on, and another may start.
reserved-Counted :
    (max_concurrent : ℕ) (m : Manager) (p q : Phase)
    → m.slots ≤ max_concurrent
    → holds_slot q ≡ holds_slot p
    → holds_claim q ≡ holds_claim p
    → ((a : ℕ) → ran a q ≡ ran a p)
    → Counted max_concurrent m p
        (reserve_and_claim max_concurrent m).manager
        q
        (reserve_and_claim max_concurrent m).started
reserved-Counted max_concurrent m p q bound slot claim run =
    let r = reserve_and_claim-Reserved max_concurrent m bound in
    record {
      slots = let e = ap tally slot in omega (arith, e, r.slots);
      bound = r.bound;
      claims = let e = ap tally claim in omega (arith, e, r.claims);
      runs = λ a.
          let e = ap tally (run a) in
          let f = ap (λ s. tally (mem a s)) r.seen in let g = r.runs a in omega (arith, e, f, g);
    }

pub Act-Counted :
    (max_concurrent : ℕ) {m n : Manager} {p q : Phase} {new : List Phase}
    → m.slots ≤ max_concurrent
    → tally (holds_slot p) ≤ m.slots
    → tally (holds_claim p) ≤ tally m.claiming
    → Act max_concurrent m p n q new
    → Counted max_concurrent m p n q new
Act-Counted max_concurrent bound slot claim (randomness_fails {m}) =
    Quiet-Counted max_concurrent m _ _ _ bound (mark_unhealthy-Quiet m)
Act-Counted max_concurrent {m = m} bound slot claim (begins request to) =
    Quiet-Counted max_concurrent m _ _ _ bound
      (subst (λ (o : Manager × Phase). Quiet m preparing o.0 o.1) to (begin_claim-Quiet request m))
Act-Counted max_concurrent {m = m} bound slot claim (is_answered request reply) =
    still-Counted max_concurrent m _ _ bound refl refl (λ a. refl)
Act-Counted max_concurrent {m = m} bound slot claim (ends request reply to) =
    Quiet-Counted max_concurrent m _ _ _ bound
      (subst (QuietAfter m (ending request reply)) to (end_claim-Quiet request reply m))
Act-Counted max_concurrent {m = m} bound slot claim (is_cancelled request reply waits) =
    Quiet-Counted max_concurrent m _ _ _ bound
      (settled-Quiet m request reply (remove request m.pending) false)
Act-Counted max_concurrent {m = m} bound slot claim (rejects attempt) =
    still-Counted max_concurrent m _ _ bound refl refl (λ a. refl)
Act-Counted max_concurrent {m = m} bound slot claim (accepts attempt to) =
    subst (λ (o : Manager × Phase). Counted max_concurrent m (accepting attempt) o.0 o.1 []) to
      (accept_claim-Counted max_concurrent attempt m bound)
Act-Counted max_concurrent {m = m} bound slot claim (finishes_reservation attempt) =
    unreserved-Counted max_concurrent m _ _ bound claim refl refl refl (λ a. refl)
Act-Counted max_concurrent {m = m} bound slot claim (refills attempt) =
    reserved-Counted max_concurrent m _ _ bound refl refl (λ a. refl)
Act-Counted max_concurrent {m = m} bound slot claim (returns attempt) =
    still-Counted max_concurrent m _ _ bound refl refl (λ a. refl)
Act-Counted max_concurrent {m = m} bound slot claim (frees attempt) =
    freed-Counted max_concurrent m _ _ bound slot refl refl refl (λ a. refl)
Act-Counted max_concurrent {m = m} bound slot claim (claims_again attempt) =
    reserved-Counted max_concurrent m _ _ bound refl refl (λ a. refl)
Act-Counted max_concurrent {m = m} bound slot claim (stops attempt) =
    still-Counted max_concurrent m _ _ bound refl refl (λ a. refl)
Act-Counted max_concurrent {m = m} bound slot claim releases =
    freed-Counted max_concurrent m _ _ bound slot refl refl refl (λ a. refl)
Act-Counted max_concurrent {m = m} bound slot claim unreserves =
    unreserved-Counted max_concurrent m _ _ bound claim refl refl refl (λ a. refl)
