-- ===== src/Worker/Examples/Claims.antt =====
-- A Worker with two slots that claims an attempt and is offered it again.
use not_so_simple_software_f.Prelude.{◌≡◌, inl, inr, refl, true, false, some, [], ◌∷◌, arith}
use not_so_simple_software_f.Worker.Manager.{
  Manager, idle, mark_unhealthy, cancel_pending_claims, fails,
}
use not_so_simple_software_f.Worker.Claiming.{
  claimed, accepting, running, Worker, acts, polls, begins, is_answered, ends, accepts,
  finishes_reservation, refills, Reach, start, step, reserve_and_claim, begin_claim, end_claim,
  after_end, accept_claim, mem, remove, keeps_up, ending, rejecting,
}
use not_so_simple_software_f.Worker.Claiming.Slots.{Claims, Reach-Claims}
use not_so_simple_software_f.Worker.Claiming.Health.{Sane}
use not_so_simple_software_f.Worker.Claiming.Sane.{Reach-Sane, is_refused, Reach-refuses}

abbrev ready : Manager
ready = record {
  health = record { state = "healthy"; capabilities = 1; source_access = 1 };
  fatal = false;
  registered = true;
  registration_generation = 1;
  advertised = some 1;
  health_check_pending = false;
  call = idle;
  claiming = false;
  slots = 0;
  pending = [];
  seen = [];
}

abbrev waiting_worker : Worker
waiting_worker = record { manager = ready; claimers = [] }

waiting_worker-Claims : Claims 2 waiting_worker
waiting_worker-Claims = record {
  slots = refl;
  bound = omega arith;
  claims = refl;
  runs = λ a. omega arith;
}

waiting_worker-Sane : Sane ready
waiting_worker-Sane = record { ill = inl refl; told = inr refl; withdrawn = inl refl }

-- One attempt runs, and the claimer of the second slot has been given the same attempt.
abbrev busy_worker : Worker
busy_worker = record {
  manager = record ready { claiming = true; slots = 2; seen = 7 ∷ [] };
  claimers = running 7 ∷ accepting 7 ∷ [];
}

Reach-busy : Reach 2 waiting_worker busy_worker
unfolding reserve_and_claim begin_claim end_claim after_end accept_claim mem remove
Reach-busy =
    step
      (step
        (step
          (step
            (step
              (step
                (step
                  (step (step (step start polls) (acts 0 refl (begins 10 refl)))
                    (acts 0 refl (is_answered 10 (claimed 7))))
                  (acts 0 refl (ends 10 (claimed 7) refl)))
                (acts 0 refl (accepts 7 refl)))
              (acts 0 refl (finishes_reservation 7)))
            (acts 0 refl (refills 7)))
          (acts 1 refl (begins 11 refl)))
        (acts 1 refl (is_answered 11 (claimed 7))))
      (acts 1 refl (ends 11 (claimed 7) refl))

Reach-Claims_example : Claims 2 busy_worker
Reach-Claims_example = Reach-Claims 2 waiting_worker-Claims Reach-busy

Reach-Sane_example : Sane busy_worker.manager
Reach-Sane_example = Reach-Sane 2 waiting_worker-Sane Reach-busy

-- The first claimer's request was withdrawn when the Worker became unhealthy.
abbrev ill_worker : Worker
ill_worker = record {
  manager = mark_unhealthy (record ready { claiming = true; slots = 1; pending = 5 ∷ [] });
  claimers = ending 5 (claimed 7) ∷ [];
}

Reach-ill : Reach 2 waiting_worker ill_worker
unfolding reserve_and_claim begin_claim
Reach-ill =
    step
      (step (step (step start polls) (acts 0 refl (begins 5 refl)))
        (acts 0 refl (is_answered 5 (claimed 7))))
      (keeps_up fails)

Reach-refuses_example : is_refused (rejecting 7) ≡ true
unfolding end_claim mark_unhealthy cancel_pending_claims mem after_end
Reach-refuses_example =
    Reach-refuses 2 5 (claimed 7) waiting_worker-Sane Reach-ill refl (ends 5 (claimed 7) refl)
