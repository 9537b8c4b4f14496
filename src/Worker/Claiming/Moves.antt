-- ===== src/Worker/Claiming/Moves.antt =====
-- What the calls of a claimer do to the numbers: reserveAndClaim, beginClaim, endClaim and the check of `seen`.
use not_so_simple_software_f.Prelude.{
  ℕ, ◌+◌, ◌≤◌, ◌≡◌, inl, inr, refl, ap, Bool, true, false, not, ◌||◌, some, List, [], arith, ltb,
  ltb→lt, ◌==◌, ==_iff, ◌∙◌, Option, none, Bool-cases, if-keeps,
}
use not_so_simple_software_f.Worker.Manager.{
  Manager, mark_unhealthy, cancel_pending_claims, is_healthy_state,
}
use not_so_simple_software_f.Worker.Claiming.{
  Reply, claim_failed, no_claim, claimed, Phase, preparing, ending, accepting, unwinding, mem,
  remove, reserve_and_claim, begin_claim, after_end, end_claim, accept_claim,
}
use not_so_simple_software_f.Worker.Claiming.Counts.{
  tally, count, holds_slot, holds_claim, ran, Counted, Quiet, Quiet-Counted,
}

-- reserveAndClaim, in numbers: it takes a slot and the reservation for a claimer that it starts.
pub record Reserved (max_concurrent : ℕ) (m : Manager) : Type 0 where
  pub slots :
      (reserve_and_claim max_concurrent m).manager.slots
      ≡ m.slots + count holds_slot (reserve_and_claim max_concurrent m).started
  pub bound : (reserve_and_claim max_concurrent m).manager.slots ≤ max_concurrent
  pub claims :
      tally (reserve_and_claim max_concurrent m).manager.claiming
      ≡ tally m.claiming + count holds_claim (reserve_and_claim max_concurrent m).started
  pub seen : (reserve_and_claim max_concurrent m).manager.seen ≡ m.seen
  pub runs : (a : ℕ) → count (ran a) (reserve_and_claim max_concurrent m).started ≡ 0

pub reserve_and_claim-Reserved :
    (max_concurrent : ℕ) (m : Manager) → m.slots ≤ max_concurrent → Reserved max_concurrent m
unfolding reserve_and_claim
reserve_and_claim-Reserved max_concurrent m bound =
    elim (Bool-cases (
      m.claiming
      || not (is_healthy_state m.health)
      || not m.registered
      || m.health_check_pending)) [
        | inl waits ↦ record {
          slots = rw waits (omega arith);
          bound = rw waits bound;
          claims = rw waits (omega arith);
          seen = rw waits refl;
          runs = λ a. rw waits refl;
        }
        | inr may ↦ elim (Bool-cases (ltb m.slots max_concurrent)) [
          | inl room ↦ record {
            slots = rw (may, room) (omega arith);
            bound =
                let lt = ltb→lt m.slots max_concurrent room in rw (may, room) (omega (arith, lt));
            claims =
                let free : m.claiming ≡ false = ground (arith, may) in
                rw (may, room) (rw free (omega arith));
            seen = rw (may, room) refl;
            runs = λ a. rw (may, room) (omega arith);
          }
          | inr full ↦ record {
            slots = rw (may, full) (omega arith);
            bound = rw (may, full) bound;
            claims = rw (may, full) (omega arith);
            seen = rw (may, full) refl;
            runs = λ a. rw (may, full) refl;
          }
        ]
      ]

pub mark_unhealthy-Quiet : (m : Manager) → Quiet m preparing (mark_unhealthy m) unwinding
unfolding mark_unhealthy cancel_pending_claims
mark_unhealthy-Quiet m = record {
  slots = refl;
  claiming = refl;
  seen = refl;
  slot = refl;
  claim = refl;
  run = λ a. refl;
}

pub begin_claim-Quiet :
    (request : ℕ) (m : Manager)
    → Quiet m preparing (begin_claim request m).0 (begin_claim request m).1
unfolding begin_claim
begin_claim-Quiet request m =
    elim (Bool-cases
      (not (is_healthy_state m.health) || not m.registered || m.health_check_pending)) [
        | inl refused ↦ record {
          slots = rw refused refl;
          claiming = rw refused refl;
          seen = rw refused refl;
          slot = rw refused refl;
          claim = rw refused refl;
          run = λ a. rw refused refl;
        }
        | inr may ↦ record {
          slots = rw may refl;
          claiming = rw may refl;
          seen = rw may refl;
          slot = rw may refl;
          claim = rw may refl;
          run = λ a. rw may refl;
        }
      ]

-- After endClaim the slot and the reservation are still held, and no attempt runs yet.
record Unsettled (p : Phase) : Type 0 where
  slot : holds_slot p ≡ true
  claim : holds_claim p ≡ true
  run : (a : ℕ) → ran a p ≡ false

after_end-Unsettled : (eligible : Bool) (reply : Reply) → Unsettled (after_end eligible reply)
unfolding after_end
after_end-Unsettled eligible claim_failed = record { slot = refl; claim = refl; run = λ a. refl }
after_end-Unsettled eligible no_claim = record { slot = refl; claim = refl; run = λ a. refl }
after_end-Unsettled true (claimed attempt) = record { slot = refl; claim = refl; run = λ a. refl }
after_end-Unsettled false (claimed attempt) = record { slot = refl; claim = refl; run = λ a. refl }

pub settled-Quiet :
    (m : Manager) (request : ℕ) (reply : Reply) (rest : List ℕ) (eligible : Bool)
    → Quiet m (ending request reply) (record m { pending = rest }) (after_end eligible reply)
settled-Quiet m request reply rest eligible =
    let u = after_end-Unsettled eligible reply in
    record {
      slots = refl;
      claiming = refl;
      seen = refl;
      slot = u.slot;
      claim = u.claim;
      run = u.run;
    }

-- What endClaim leaves, if it does not wait.
abbrev pub QuietAfter : Manager → Phase → Option (Manager × Phase) → Type 0
QuietAfter m p none = Unit
QuietAfter m p (some (n, q)) = Quiet m p n q

pub end_claim-Quiet :
    (request : ℕ) (reply : Reply) (m : Manager)
    → QuietAfter m (ending request reply) (end_claim request reply m)
unfolding end_claim
end_claim-Quiet request reply m =
    if-keeps (QuietAfter m (ending request reply)) (not (mem request m.pending)) _ _
      (settled-Quiet m request reply m.pending false)
      (if-keeps (QuietAfter m (ending request reply)) (not m.health_check_pending) _ _
        (settled-Quiet m request reply (remove request m.pending) (is_healthy_state m.health)) tt)

pub tally-one : (b : Bool) → 1 ≤ tally b → tally b ≡ 1
tally-one true h = refl
tally-one false h = absurd (omega arith)

-- A new attempt is seen from now on.
seen-tally :
    (attempt a : ℕ) (seen : List ℕ)
    → mem attempt seen ≡ false
    → tally (a == attempt) + tally (mem a seen) ≤ tally (a == attempt || mem a seen)
seen-tally attempt a seen first = elim (Bool-cases (a == attempt)) [
  | inl same ↦
      let e : a ≡ attempt = (==_iff a attempt).0 same in
      let new : mem a seen ≡ false = ap (λ b. mem b seen) e ∙ first in rw (same, new) (omega arith)
  | inr other ↦ rw other (omega arith)
]

-- A claimer that is accepted runs an attempt that no claimer ran before.
pub accept_claim-Counted :
    (max_concurrent attempt : ℕ) (m : Manager)
    → m.slots ≤ max_concurrent
    → Counted max_concurrent m
        (accepting attempt)
        (accept_claim attempt m).0
        (accept_claim attempt m).1
        []
unfolding accept_claim mem
accept_claim-Counted max_concurrent attempt m bound = elim (Bool-cases (mem attempt m.seen)) [
  | inl again ↦ rw again (
      Quiet-Counted max_concurrent m (accepting attempt) m unwinding bound (record {
        slots = refl;
        claiming = refl;
        seen = refl;
        slot = refl;
        claim = refl;
        run = λ a. refl;
      }))
  | inr first ↦ rw first (record {
    slots = omega arith;
    bound = bound;
    claims = omega arith;
    runs = λ a. let t = seen-tally attempt a m.seen first in omega (arith, t);
  })
]
