-- ===== src/Worker/Claiming/Health.antt =====
-- Health and registration keep a Worker sane.
use not_so_simple_software_f.Prelude.{
  ℕ, ◌≡◌, ◌⊎◌, inl, inr, refl, ap, ◌∙◌, Bool, true, false, ◌&&◌, Option, none, some, [], arith,
  ◌==◌, ==_iff, Bool-cases, if◌then◌else◌,
}
use not_so_simple_software_f.Worker.Manager.{
  Health, Call, Manager, Upkeep, checks_begin, checks_end, registers, register_answers,
  rejects_registration, beats, beat_answers, fails, begin_health_check, set_health, put_health,
  fatal_health, mark_unhealthy, cancel_pending_claims, finish_health_check, register_answered,
  register_accepted, journal_failed, register_refused, register_failed, RegisterAnswer,
  complete_registration, heartbeat_answered, lose_registration, health_registration_changed,
  is_healthy_state, same_generation,
}

-- After a fatal error the Worker is not healthy; a registered Worker has told the control plane its current
-- generation; and a Worker that is not healthy has no pending claim.
pub record Sane (m : Manager) : Type 0 where
  pub ill : (m.fatal ≡ false) ⊎ (is_healthy_state m.health ≡ false)
  pub told : (m.registered ≡ false) ⊎ (m.advertised ≡ some m.registration_generation)
  pub withdrawn : (is_healthy_state m.health ≡ true) ⊎ (m.pending ≡ [])

pub mark_unhealthy-Sane : (m : Manager) → Sane (mark_unhealthy m)
unfolding mark_unhealthy cancel_pending_claims
mark_unhealthy-Sane m = record { ill = inr refl; told = inl refl; withdrawn = inr refl }

-- What setHealth puts after a fatal error.
fatal-ill :
    (fatal : Bool) (value : Health)
    → (fatal ≡ false) ⊎ (is_healthy_state (if fatal then fatal_health else value) ≡ false)
fatal-ill true value = inr refl
fatal-ill false value = inl refl

-- The Worker after its health was put, with or without its claims.
record Put (m n : Manager) (value : Health) : Type 0 where
  health : n.health ≡ value
  fatal : n.fatal ≡ m.fatal
  told : (n.registered ≡ false) ⊎ (n.advertised ≡ some n.registration_generation)

put_health-Put : (value : Health) (m : Manager) → Sane m → Put m (put_health value m) value
unfolding put_health
put_health-Put value m s = elim (Bool-cases (health_registration_changed m.health value)) [
  | inl changed ↦ rw changed (record { health = refl; fatal = refl; told = inl refl })
  | inr kept ↦ rw kept (record { health = refl; fatal = refl; told = s.told })
]

set_health-Sane : (value : Health) (m : Manager) → Sane m → Sane (set_health value m)
unfolding set_health finish_health_check cancel_pending_claims
set_health-Sane value m s =
    let next = if m.fatal then fatal_health else value in
    let p = put_health-Put next m s in
    let ill : ((put_health next m).fatal ≡ false)
        ⊎ (is_healthy_state (put_health next m).health ≡ false) =
      elim (fatal-ill m.fatal value) [
        | inl fine ↦ inl (p.fatal ∙ fine)
        | inr bad ↦ inr (ap is_healthy_state p.health ∙ bad)
      ] in
    elim (Bool-cases (is_healthy_state next)) [
      | inl healthy ↦ rw healthy (record {
        ill = ill;
        told = p.told;
        withdrawn = inl (ap is_healthy_state p.health ∙ healthy);
      })
      | inr bad ↦ rw bad (record { ill = ill; told = p.told; withdrawn = inr refl })
    ]

lose_registration-Sane : (m : Manager) → Sane m → Sane (lose_registration m)
unfolding cancel_pending_claims
lose_registration-Sane m s = record { ill = s.ill; told = inl refl; withdrawn = inr refl }

called-Sane : (m : Manager) (call : Call) → Sane m → Sane (record m { call = call })
called-Sane m call s = record { ill = s.ill; told = s.told; withdrawn = s.withdrawn }

register_answered-Sane :
    (answer : RegisterAnswer) (generation : ℕ) (m : Manager)
    → Sane m
    → Sane (register_answered answer generation m)
unfolding register_answered complete_registration cancel_pending_claims
register_answered-Sane register_accepted generation m s =
    elim (Bool-cases (generation == m.registration_generation)) [
      | inl current ↦
          let e = (==_iff generation m.registration_generation).0 current in
          rw current (record { ill = s.ill; told = inr (ap some e); withdrawn = s.withdrawn })
      | inr old ↦ rw old (record { ill = s.ill; told = inl refl; withdrawn = inr refl })
    ]
register_answered-Sane journal_failed generation m s = mark_unhealthy-Sane m
register_answered-Sane register_refused generation m s = lose_registration-Sane m s
register_answered-Sane register_failed generation m s = lose_registration-Sane m s

same_generation-some :
    (advertised : Option ℕ) (generation current : ℕ)
    → (same_generation advertised generation && current == generation) ≡ true
    → advertised ≡ some current
same_generation-some none generation current h = cc
same_generation-some (some n) generation current h =
    let e : n ≡ current = ground (arith, h) in ap some e

heartbeat_answered-Sane :
    (accepted : Bool) (generation : ℕ) (m : Manager)
    → Sane m
    → Sane (heartbeat_answered accepted generation m)
unfolding heartbeat_answered
heartbeat_answered-Sane false generation m s = lose_registration-Sane m s
heartbeat_answered-Sane true generation m s =
    elim (Bool-cases
      (same_generation m.advertised generation && m.registration_generation == generation)) [
        | inl current ↦ rw current (record {
          ill = s.ill;
          told =
              inr (same_generation-some m.advertised generation m.registration_generation current);
          withdrawn = s.withdrawn;
        })
        | inr old ↦ rw old s
      ]

pub Upkeep-Sane : {m n : Manager} → Sane m → Upkeep m n → Sane n
unfolding begin_health_check
Upkeep-Sane {m = m} s checks_begin = elim (Bool-cases m.health_check_pending) [
  | inl pending ↦ rw pending (record { ill = s.ill; told = s.told; withdrawn = s.withdrawn })
  | inr free ↦ rw free (record { ill = s.ill; told = s.told; withdrawn = s.withdrawn })
]
Upkeep-Sane {m = m} s (checks_end value) = set_health-Sane value m s
Upkeep-Sane {m = m} s (registers free) = called-Sane m _ s
Upkeep-Sane {m = m} s (register_answers answer generation at) =
    called-Sane _ _ (register_answered-Sane answer generation m s)
Upkeep-Sane {m = m} s (rejects_registration at) = called-Sane _ _ (mark_unhealthy-Sane m)
Upkeep-Sane {m = m} s (beats free current) = called-Sane m _ s
Upkeep-Sane {m = m} s (beat_answers accepted generation at) =
    called-Sane _ _ (heartbeat_answered-Sane accepted generation m s)
Upkeep-Sane {m = m} s fails = mark_unhealthy-Sane m
