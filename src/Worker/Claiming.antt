-- ===== src/Worker/Claiming.antt =====
-- How a Worker claims attempts: reserveAndClaim, claimOnce, beginClaim and endClaim
-- (factory/internal/worker/claiming.go). A claimer is one goroutine of claimOnce; its phase is the place
-- between two of the steps that it takes under stateMutex or on the channel of slots.
pub mod Counts
pub mod Moves
pub mod Acts
pub mod Keeps
pub mod Health
pub mod Sane
pub mod Slots
use not_so_simple_software_f.Prelude.{
  ℕ, ◌+◌, ◌-◌, ◌≡◌, Bool, true, false, not, ◌&&◌, ◌||◌, Option, none, some, List, [], ◌∷◌, ◌++◌,
  ltb, ◌==◌, get_elem?, set, if◌then◌else◌,
}
use not_so_simple_software_f.Worker.Manager.{
  Manager, Upkeep, is_healthy_state, is_healthy, mark_unhealthy,
}

-- What the control plane answers to a claim: an error, no attempt, or an attempt.
pub data Reply : Type 0 where
  claim_failed : Reply
  no_claim : Reply
  claimed : (attempt : ℕ) → Reply

pub data Phase : Type 0 where
  -- Before beginClaim.
  preparing : Phase
  -- The request is in `pending` and on its way.
  requesting : (request : ℕ) → Phase
  -- In endClaim, with the reply.
  ending : (request : ℕ) → Reply → Phase
  -- The Worker is eligible for the attempt, or is not and reports it as failed.
  accepting : (attempt : ℕ) → Phase
  rejecting : (attempt : ℕ) → Phase
  -- The attempt is in `seen`; then the reservation is finished; then another slot was reserved.
  accepted : (attempt : ℕ) → Phase
  refilling : (attempt : ℕ) → Phase
  running : (attempt : ℕ) → Phase
  -- runAttempt has returned; then the slot is free.
  completed : (attempt : ℕ) → Phase
  leaving : (attempt : ℕ) → Phase
  -- The deferred calls of an early return: the slot, then the reservation.
  unwinding : Phase
  unreserving : Phase
  -- The goroutine has ended; the attempt that it ran, if it ran one.
  gone : Option ℕ → Phase

unfoldable pub mem : ℕ → List ℕ → Bool
mem n [] = false
mem n (x ∷ rest) = n == x || mem n rest

unfoldable pub remove : ℕ → List ℕ → List ℕ
remove n [] = []
remove n (x ∷ rest) = let others = remove n rest in if n == x then others else x ∷ others

-- The shared state that a step leaves, and the claimers that it starts.
pub record Outcome : Type 0 where
  pub manager : Manager
  pub started : List Phase

-- reserveAndClaim, for a channel of `max_concurrent` slots.
unfoldable pub reserve_and_claim : ℕ → Manager → Outcome
reserve_and_claim max_concurrent m =
    if m.claiming || not (is_healthy_state m.health) || not m.registered || m.health_check_pending
    then record { manager = m; started = [] }
    else if ltb m.slots max_concurrent
    then record {
      manager = record m { slots = m.slots + 1; claiming = true };
      started = preparing ∷ [];
    }
    else record { manager = m; started = [] }

-- beginClaim
unfoldable pub begin_claim : ℕ → Manager → Manager × Phase
begin_claim request m =
    if not (is_healthy_state m.health) || not m.registered || m.health_check_pending
    then (m, unwinding)
    else (record m { pending = request ∷ m.pending }, requesting request)

-- Where claimOnce goes from endClaim's answer and the reply.
unfoldable pub after_end : Bool → Reply → Phase
after_end eligible claim_failed = unwinding
after_end eligible no_claim = unwinding
after_end eligible (claimed attempt) = if eligible then accepting attempt else rejecting attempt

-- One round of endClaim's loop; `none` is a wait for the health check.
unfoldable pub end_claim : ℕ → Reply → Manager → Option (Manager × Phase)
end_claim request reply m =
    if not (mem request m.pending)
    then some (m, after_end false reply)
    else if not m.health_check_pending
    then some (
      record m { pending = remove request m.pending },
      after_end (is_healthy_state m.health) reply,
    )
    else none

-- The check of `seen`.
unfoldable pub accept_claim : ℕ → Manager → Manager × Phase
accept_claim attempt m =
    if mem attempt m.seen
    then (m, unwinding)
    else (record m { seen = attempt ∷ m.seen }, accepted attempt)

-- A step of a claimer: the shared state and its phase before, and after; and the claimers it starts.
pub data Act (max_concurrent : ℕ) : Manager → Phase → Manager → Phase → List Phase → Type 0 where
  randomness_fails : {m : Manager} → Act max_concurrent m preparing (mark_unhealthy m) unwinding []
  begins :
      {m n : Manager} {p : Phase} (request : ℕ)
      → begin_claim request m ≡ (n, p)
      → Act max_concurrent m preparing n p []
  is_answered :
      {m : Manager} (request : ℕ) (reply : Reply)
      → Act max_concurrent m (requesting request) m (ending request reply) []
  ends :
      {m n : Manager} {p : Phase} (request : ℕ) (reply : Reply)
      → end_claim request reply m ≡ some (n, p)
      → Act max_concurrent m (ending request reply) n p []
  -- The context of the claim is done during the wait.
  is_cancelled :
      {m : Manager} (request : ℕ) (reply : Reply)
      → end_claim request reply m ≡ none
      → Act max_concurrent m
          (ending request reply)
          (record m { pending = remove request m.pending })
          (after_end false reply)
          []
  rejects : {m : Manager} (attempt : ℕ) → Act max_concurrent m (rejecting attempt) m unwinding []
  accepts :
      {m n : Manager} {p : Phase} (attempt : ℕ)
      → accept_claim attempt m ≡ (n, p)
      → Act max_concurrent m (accepting attempt) n p []
  finishes_reservation :
      {m : Manager} (attempt : ℕ)
      → Act max_concurrent m
          (accepted attempt)
          (record m { claiming = false })
          (refilling attempt)
          []
  refills :
      {m : Manager} (attempt : ℕ)
      → Act max_concurrent m
          (refilling attempt)
          (reserve_and_claim max_concurrent m).manager
          (running attempt)
          (reserve_and_claim max_concurrent m).started
  returns :
      {m : Manager} (attempt : ℕ) → Act max_concurrent m (running attempt) m (completed attempt) []
  frees :
      {m : Manager} (attempt : ℕ)
      → Act max_concurrent m
          (completed attempt)
          (record m { slots = m.slots - 1 })
          (leaving attempt)
          []
  -- The Worker goes on, or it is stopped.
  claims_again :
      {m : Manager} (attempt : ℕ)
      → Act max_concurrent m
          (leaving attempt)
          (reserve_and_claim max_concurrent m).manager
          (gone (some attempt))
          (reserve_and_claim max_concurrent m).started
  stops :
      {m : Manager} (attempt : ℕ)
      → Act max_concurrent m (leaving attempt) m (gone (some attempt)) []
  releases :
      {m : Manager}
      → Act max_concurrent m unwinding (record m { slots = m.slots - 1 }) unreserving []
  unreserves :
      {m : Manager}
      → Act max_concurrent m unreserving (record m { claiming = false }) (gone none) []

pub record Worker : Type 0 where
  pub manager : Manager
  pub claimers : List Phase

-- Any claimer takes a step, the main loop polls, or the upkeep of health and registration takes a step.
pub data Step (max_concurrent : ℕ) : Worker → Worker → Type 0 where
  acts :
      {w : Worker} {n : Manager} {p q : Phase} {new : List Phase} (i : ℕ)
      → get_elem? w.claimers i ≡ some p
      → Act max_concurrent w.manager p n q new
      → Step max_concurrent w (record { manager = n; claimers = set w.claimers i q ++ new })
  polls :
      {w : Worker}
      → Step max_concurrent w (record {
        manager = (reserve_and_claim max_concurrent w.manager).manager;
        claimers = w.claimers ++ (reserve_and_claim max_concurrent w.manager).started;
      })
  keeps_up :
      {w : Worker} {n : Manager}
      → Upkeep w.manager n
      → Step max_concurrent w (record w { manager = n })

pub data Reach (max_concurrent : ℕ) : Worker → Worker → Type 0 where
  start : {w : Worker} → Reach max_concurrent w w
  step :
      {v w x : Worker}
      → Reach max_concurrent v w
      → Step max_concurrent w x
      → Reach max_concurrent v x
