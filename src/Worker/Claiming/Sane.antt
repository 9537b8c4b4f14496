-- ===== src/Worker/Claiming/Sane.antt =====
-- A Worker's health, registration and pending claims agree.
use not_so_simple_software_f.Prelude.{
  ℕ, ◌≡◌, inl, inr, ap, subst, true, not, ◌||◌, Option, Bool, false, refl, none, some, List, arith,
  Bool-cases, if-keeps, ltb,
}
use not_so_simple_software_f.Worker.Manager.{Manager, is_healthy_state}
use not_so_simple_software_f.Worker.Claiming.{
  Phase, mem, remove, Worker, Act, acts, polls, keeps_up, Reach, start, step, reserve_and_claim,
  begin_claim, end_claim, accept_claim, Reply, randomness_fails, begins, is_answered, ends,
  is_cancelled, rejects, accepts, finishes_reservation, refills, returns, frees, claims_again,
  stops, releases, unreserves, after_end, claim_failed, no_claim, claimed, unwinding, rejecting,
  ending,
}
use not_so_simple_software_f.Worker.Claiming.Health.{Sane, mark_unhealthy-Sane, Upkeep-Sane}

reserve_and_claim-Sane :
    (max_concurrent : ℕ) (m : Manager) → Sane m → Sane (reserve_and_claim max_concurrent m).manager
unfolding reserve_and_claim
reserve_and_claim-Sane max_concurrent m s =
    elim (Bool-cases (
      m.claiming
      || not (is_healthy_state m.health)
      || not m.registered
      || m.health_check_pending)) [
        | inl waits ↦ rw waits s
        | inr may ↦ elim (Bool-cases (ltb m.slots max_concurrent)) [
          | inl room ↦
              rw (may, room) (record { ill = s.ill; told = s.told; withdrawn = s.withdrawn })
          | inr full ↦ rw (may, full) s
        ]
      ]

begin_claim-Sane : (request : ℕ) (m : Manager) → Sane m → Sane (begin_claim request m).0
unfolding begin_claim
begin_claim-Sane request m s =
    elim (Bool-cases
      (not (is_healthy_state m.health) || not m.registered || m.health_check_pending)) [
        | inl refused ↦ rw refused s
        | inr may ↦
            let healthy : is_healthy_state m.health ≡ true = ground (arith, may) in
            rw may (record { ill = s.ill; told = s.told; withdrawn = inl healthy })
      ]

removed-Sane :
    (m : Manager) (request : ℕ) → Sane m → Sane (record m { pending = remove request m.pending })
unfolding remove
removed-Sane m request s = record {
  ill = s.ill;
  told = s.told;
  withdrawn = elim s.withdrawn [
    | inl healthy ↦ inl healthy
    | inr empty ↦ inr (ap (remove request) empty)
  ];
}

abbrev SaneAfter : Option (Manager × Phase) → Type 0
SaneAfter none = Unit
SaneAfter (some (n, p)) = Sane n

end_claim-Sane :
    (request : ℕ) (reply : Reply) (m : Manager) → Sane m → SaneAfter (end_claim request reply m)
unfolding end_claim
end_claim-Sane request reply m s =
    if-keeps SaneAfter (not (mem request m.pending)) _ _ s
      (if-keeps SaneAfter (not m.health_check_pending) _ _ (removed-Sane m request s) tt)

accept_claim-Sane : (attempt : ℕ) (m : Manager) → Sane m → Sane (accept_claim attempt m).0
unfolding accept_claim
accept_claim-Sane attempt m s = elim (Bool-cases (mem attempt m.seen)) [
  | inl again ↦ rw again s
  | inr first ↦ rw first (record { ill = s.ill; told = s.told; withdrawn = s.withdrawn })
]

Act-Sane :
    (max_concurrent : ℕ) {m n : Manager} {p q : Phase} {new : List Phase}
    → Sane m
    → Act max_concurrent m p n q new
    → Sane n
Act-Sane max_concurrent {m = m} s randomness_fails = mark_unhealthy-Sane m
Act-Sane max_concurrent {m = m} s (begins request to) =
    subst (λ (o : Manager × Phase). Sane o.0) to (begin_claim-Sane request m s)
Act-Sane max_concurrent s (is_answered request reply) = s
Act-Sane max_concurrent {m = m} s (ends request reply to) =
    subst SaneAfter to (end_claim-Sane request reply m s)
Act-Sane max_concurrent {m = m} s (is_cancelled request reply waits) = removed-Sane m request s
Act-Sane max_concurrent s (rejects attempt) = s
Act-Sane max_concurrent {m = m} s (accepts attempt to) =
    subst (λ (o : Manager × Phase). Sane o.0) to (accept_claim-Sane attempt m s)
Act-Sane max_concurrent s (finishes_reservation attempt) = record {
  ill = s.ill;
  told = s.told;
  withdrawn = s.withdrawn;
}
Act-Sane max_concurrent {m = m} s (refills attempt) = reserve_and_claim-Sane max_concurrent m s
Act-Sane max_concurrent s (returns attempt) = s
Act-Sane max_concurrent s (frees attempt) = record {
  ill = s.ill;
  told = s.told;
  withdrawn = s.withdrawn;
}
Act-Sane max_concurrent {m = m} s (claims_again attempt) = reserve_and_claim-Sane max_concurrent m s
Act-Sane max_concurrent s (stops attempt) = s
Act-Sane max_concurrent s releases = record { ill = s.ill; told = s.told; withdrawn = s.withdrawn }
Act-Sane max_concurrent s unreserves = record {
  ill = s.ill;
  told = s.told;
  withdrawn = s.withdrawn;
}

-- In every history of a Worker, from a state in which it holds: after a fatal error the Worker is not healthy;
-- a registered Worker has told the control plane its current generation; and a Worker that is not healthy has no
-- claim pending.
pub Reach-Sane :
    (max_concurrent : ℕ) {v w : Worker} → Sane v.manager → Reach max_concurrent v w → Sane w.manager
Reach-Sane max_concurrent s start = s
Reach-Sane max_concurrent s (step before (acts i at act)) =
    Act-Sane max_concurrent (Reach-Sane max_concurrent s before) act
Reach-Sane max_concurrent s (step {w} before polls) =
    reserve_and_claim-Sane max_concurrent w.manager (Reach-Sane max_concurrent s before)
Reach-Sane max_concurrent s (step before (keeps_up upkeep)) =
    Upkeep-Sane (Reach-Sane max_concurrent s before) upkeep

-- A claimer that will run no attempt: it gives up its slot, or reports the attempt as failed first.
unfoldable pub is_refused : Phase → Bool
is_refused unwinding = true
is_refused (rejecting attempt) = true
is_refused _ = false

after_end-refused : (reply : Reply) → is_refused (after_end false reply) ≡ true
unfolding is_refused after_end
after_end-refused claim_failed = refl
after_end-refused no_claim = refl
after_end-refused (claimed attempt) = refl

abbrev RefusedAfter : Option (Manager × Phase) → Type 0
RefusedAfter none = Unit
RefusedAfter (some (n, p)) = is_refused p ≡ true

end_claim-unhealthy :
    (request : ℕ) (reply : Reply) (m : Manager)
    → Sane m
    → is_healthy_state m.health ≡ false
    → RefusedAfter (end_claim request reply m)
unfolding end_claim mem
end_claim-unhealthy request reply m s ill = elim s.withdrawn [
  | inl healthy ↦ cc
  | inr empty ↦
      let absent : not (mem request m.pending) ≡ true = rw empty refl in
      rw absent (after_end-refused reply)
]

-- In every history of a Worker, from a state in which its health, registration and pending claims agree:
-- while the Worker is not healthy, whatever the control plane has answered to a claim, the claimer that
-- takes the answer runs no attempt.
pub Reach-refuses :
    (max_concurrent : ℕ) {v w : Worker} (request : ℕ) (reply : Reply) {n : Manager} {p : Phase}
    {new : List Phase}
    → Sane v.manager
    → Reach max_concurrent v w
    → is_healthy_state w.manager.health ≡ false
    → Act max_concurrent w.manager (ending request reply) n p new
    → is_refused p ≡ true
Reach-refuses max_concurrent request reply s reach ill (ends r answer to) =
    subst RefusedAfter to (end_claim-unhealthy r answer _ (Reach-Sane max_concurrent s reach) ill)
Reach-refuses max_concurrent request reply s reach ill (is_cancelled r answer waits) =
    after_end-refused answer
