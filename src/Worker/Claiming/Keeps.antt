-- ===== src/Worker/Claiming/Keeps.antt =====
-- What the upkeep of health and registration leaves alone.
use not_so_simple_software_f.Prelude.{
  ℕ, ◌≡◌, refl, Bool, true, false, if◌then◌else◌, Bool-cases, inl, inr, ◌==◌, ◌&&◌,
}
use not_so_simple_software_f.Worker.Manager.{
  health_registration_changed, is_healthy_state, same_generation, Health, Manager, Upkeep,
  checks_begin, checks_end, registers, register_answers, rejects_registration, beats, beat_answers,
  fails, begin_health_check, set_health, put_health, fatal_health, mark_unhealthy,
  cancel_pending_claims, finish_health_check, register_answered, register_accepted, journal_failed,
  register_refused, register_failed, RegisterAnswer, complete_registration, heartbeat_answered,
}

pub record SameClaims (m n : Manager) : Type 0 where
  pub slots : n.slots ≡ m.slots
  pub claiming : n.claiming ≡ m.claiming
  pub seen : n.seen ≡ m.seen

put_health-SameClaims : (value : Health) (m : Manager) → SameClaims m (put_health value m)
unfolding put_health
put_health-SameClaims value m = elim (Bool-cases (health_registration_changed m.health value)) [
  | inl changed ↦ rw changed (record { slots = refl; claiming = refl; seen = refl })
  | inr kept ↦ rw kept (record { slots = refl; claiming = refl; seen = refl })
]

set_health-SameClaims : (value : Health) (m : Manager) → SameClaims m (set_health value m)
unfolding set_health finish_health_check cancel_pending_claims
set_health-SameClaims value m =
    let h = put_health-SameClaims (if m.fatal then fatal_health else value) m in
    elim (Bool-cases (is_healthy_state (if m.fatal then fatal_health else value))) [
      | inl healthy ↦ rw healthy (record { slots = h.slots; claiming = h.claiming; seen = h.seen })
      | inr ill ↦ rw ill (record { slots = h.slots; claiming = h.claiming; seen = h.seen })
    ]

mark_unhealthy-SameClaims : (m : Manager) → SameClaims m (mark_unhealthy m)
unfolding mark_unhealthy cancel_pending_claims
mark_unhealthy-SameClaims m = record { slots = refl; claiming = refl; seen = refl }

register_answered-SameClaims :
    (answer : RegisterAnswer) (generation : ℕ) (m : Manager)
    → SameClaims m (register_answered answer generation m)
unfolding register_answered mark_unhealthy cancel_pending_claims complete_registration
register_answered-SameClaims register_accepted generation m =
    elim (Bool-cases (generation == m.registration_generation)) [
      | inl current ↦ rw current (record { slots = refl; claiming = refl; seen = refl })
      | inr old ↦ rw old (record { slots = refl; claiming = refl; seen = refl })
    ]
register_answered-SameClaims journal_failed generation m = record {
  slots = refl;
  claiming = refl;
  seen = refl;
}
register_answered-SameClaims register_refused generation m = record {
  slots = refl;
  claiming = refl;
  seen = refl;
}
register_answered-SameClaims register_failed generation m = record {
  slots = refl;
  claiming = refl;
  seen = refl;
}

heartbeat_answered-SameClaims :
    (accepted : Bool) (generation : ℕ) (m : Manager)
    → SameClaims m (heartbeat_answered accepted generation m)
unfolding heartbeat_answered cancel_pending_claims
heartbeat_answered-SameClaims false generation m = (record {
  slots = refl;
  claiming = refl;
  seen = refl;
})
heartbeat_answered-SameClaims true generation m =
    elim (Bool-cases
      (same_generation m.advertised generation && m.registration_generation == generation)) [
        | inl current ↦ rw current (record { slots = refl; claiming = refl; seen = refl })
        | inr old ↦ rw old (record { slots = refl; claiming = refl; seen = refl })
      ]

pub Upkeep-SameClaims : {m n : Manager} → Upkeep m n → SameClaims m n
unfolding begin_health_check
Upkeep-SameClaims {m = m} checks_begin = elim (Bool-cases m.health_check_pending) [
  | inl pending ↦ rw pending (record { slots = refl; claiming = refl; seen = refl })
  | inr free ↦ rw free (record { slots = refl; claiming = refl; seen = refl })
]
Upkeep-SameClaims {m = m} (checks_end value) = set_health-SameClaims value m
Upkeep-SameClaims (registers free) = record { slots = refl; claiming = refl; seen = refl }
Upkeep-SameClaims {m = m} (register_answers answer generation at) =
    let h = register_answered-SameClaims answer generation m in
    record { slots = h.slots; claiming = h.claiming; seen = h.seen }
Upkeep-SameClaims {m = m} (rejects_registration at) =
    let h = mark_unhealthy-SameClaims m in
    record { slots = h.slots; claiming = h.claiming; seen = h.seen }
Upkeep-SameClaims (beats free current) = record { slots = refl; claiming = refl; seen = refl }
Upkeep-SameClaims {m = m} (beat_answers accepted generation at) =
    let h = heartbeat_answered-SameClaims accepted generation m in
    record { slots = h.slots; claiming = h.claiming; seen = h.seen }
Upkeep-SameClaims {m = m} fails = mark_unhealthy-SameClaims m
