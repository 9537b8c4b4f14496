-- ===== src/Worker/Manager.antt =====
-- The state that the goroutines of a Worker share (Manager in factory/internal/worker/manager.go), and what
-- its health and its registration do to it (factory/internal/worker/registration.go). Each function is
-- what happens under one hold of stateMutex.
use not_so_simple_software_f.Prelude.{
  ℕ, ◌+◌, ◌≡◌, Bool, true, false, not, ◌&&◌, ◌||◌, String, Option, none, some, List, [], ◌==◌,
  str_eq, if◌then◌else◌,
}

-- The capabilities and the source access are only compared (reflect.DeepEqual); a number stands for each.
pub record Health : Type 0 where
  pub state : String
  pub capabilities : ℕ
  pub source_access : ℕ

-- What registrationMutex guards: nothing, or a call to the control plane that began at a generation, or
-- what registerLocked does after a refused call.
pub data Call : Type 0 where
  idle : Call
  registering : (generation : ℕ) → Call
  heartbeating : (generation : ℕ) → Call
  rejecting_registration : Call

-- `slots` is how many values the channel of slots holds; `advertised` is the generation that the control
-- plane has accepted, if it has accepted one; `fatal` says whether fatalHealth is set.
pub record Manager : Type 0 where
  pub health : Health
  pub fatal : Bool
  pub registered : Bool
  pub registration_generation : ℕ
  pub advertised : Option ℕ
  pub health_check_pending : Bool
  pub call : Call
  pub claiming : Bool
  pub slots : ℕ
  pub pending : List ℕ
  pub seen : List ℕ

abbrev pub is_healthy_state : Health → Bool
is_healthy_state h = str_eq h.state "healthy"

unfoldable pub health_registration_changed : Health → Health → Bool
health_registration_changed previous next =
    not (str_eq previous.state next.state)
    || not (previous.capabilities == next.capabilities)
    || not (previous.source_access == next.source_access)

unfoldable pub cancel_pending_claims : Manager → Manager
cancel_pending_claims m = record m { pending = [] }

unfoldable pub finish_health_check : Manager → Manager
finish_health_check m = record m { health_check_pending = false }

abbrev pub fatal_health : Health
fatal_health = record { state = "unhealthy"; capabilities = 0; source_access = 0 }

-- The assignments of setHealth.
unfoldable pub put_health : Health → Manager → Manager
put_health value m =
    if health_registration_changed m.health value
    then record m {
      health = value;
      registration_generation = m.registration_generation + 1;
      registered = false;
    }
    else record m { health = value }

abbrev pub checked_health : Health → Manager → Manager
checked_health value m = finish_health_check (
    if is_healthy_state value
    then put_health value m
    else cancel_pending_claims (put_health value m))

unfoldable pub set_health : Health → Manager → Manager
set_health value m = checked_health (if m.fatal then fatal_health else value) m

unfoldable pub mark_unhealthy : Manager → Manager
mark_unhealthy m = cancel_pending_claims (record m {
  fatal = true;
  health = record m.health { state = "unhealthy" };
  registration_generation = m.registration_generation + 1;
  registered = false;
})

unfoldable pub is_healthy : Manager → Bool
is_healthy m = is_healthy_state m.health && m.registered && not m.health_check_pending

unfoldable pub begin_health_check : Manager → Manager
begin_health_check m =
    if m.health_check_pending then m else record m { health_check_pending = true }

unfoldable pub complete_registration : ℕ → Manager → Manager
complete_registration generation m =
    if generation == m.registration_generation
    then record m { registered = true; advertised = some generation }
    else cancel_pending_claims (record m { registered = false })

-- What a registration comes to: accepted, and the journal of disposed attempts cleared or not; refused with
-- a status below 500; or failed in another way.
pub data RegisterAnswer : Type 0 where
  register_accepted : RegisterAnswer
  journal_failed : RegisterAnswer
  register_refused : RegisterAnswer
  register_failed : RegisterAnswer

-- The branch of an error in registerLocked and in heartbeatWorkerLocked.
abbrev pub lose_registration : Manager → Manager
lose_registration m = cancel_pending_claims (record m { registered = false })

-- The first hold of stateMutex after the answer.
unfoldable pub register_answered : RegisterAnswer → ℕ → Manager → Manager
register_answered register_accepted generation m = complete_registration generation m
register_answered journal_failed generation m = mark_unhealthy m
register_answered register_refused generation m = lose_registration m
register_answered register_failed generation m = lose_registration m

-- A refused registration gives stateMutex up before it marks the Worker unhealthy.
unfoldable pub call_after : RegisterAnswer → Call
call_after register_refused = rejecting_registration
call_after register_accepted = idle
call_after journal_failed = idle
call_after register_failed = idle

abbrev pub same_generation : Option ℕ → ℕ → Bool
same_generation none generation = false
same_generation (some n) generation = n == generation

unfoldable pub heartbeat_answered : Bool → ℕ → Manager → Manager
heartbeat_answered accepted generation m =
    if not accepted
    then lose_registration m
    else if same_generation m.advertised generation && m.registration_generation == generation
    then record m { registered = true }
    else m

-- The steps of the goroutines that watch the health and keep the registration.
pub data Upkeep : Manager → Manager → Type 0 where
  checks_begin : {m : Manager} → Upkeep m (begin_health_check m)
  checks_end : {m : Manager} (value : Health) → Upkeep m (set_health value m)
  registers :
      {m : Manager}
      → m.call ≡ idle
      → Upkeep m (record m { call = registering m.registration_generation })
  register_answers :
      {m : Manager} (answer : RegisterAnswer) (generation : ℕ)
      → m.call ≡ registering generation
      → Upkeep m (record (register_answered answer generation m) { call = call_after answer })
  rejects_registration :
      {m : Manager}
      → m.call ≡ rejecting_registration
      → Upkeep m (record (mark_unhealthy m) { call = idle })
  -- heartbeatWorkerLocked goes on when the registration is current.
  beats :
      {m : Manager}
      → m.call ≡ idle
      → same_generation m.advertised m.registration_generation ≡ true
      → Upkeep m (record m { call = heartbeating m.registration_generation })
  beat_answers :
      {m : Manager} (accepted : Bool) (generation : ℕ)
      → m.call ≡ heartbeating generation
      → Upkeep m (record (heartbeat_answered accepted generation m) { call = idle })
  fails : {m : Manager} → Upkeep m (mark_unhealthy m)
