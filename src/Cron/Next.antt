-- ===== src/Cron/Next.antt =====
-- The next instant of a cron schedule (cronSchedule.matches and Next in
-- factory/internal/controlplane/schedule_cron.go). An instant is a number of milliseconds, and a
-- candidate a number of minutes. The calendar of the schedule's time zone, and the minute that is
-- `cronSearchYears` later, are parameters (package time).
use not_so_simple_software_f.Prelude.{
  ℕ, zero, suc, ◌+◌, ◌-◌, ◌*◌, ◌/◌, ◌≤◌, ◌<◌, ◌≡◌, ◌==◌, subst, Bool, true, false, not, ◌&&◌, ◌||◌,
  Option, none, some, get_or, arith, inl, inr, Bool-cases, if◌then◌else◌,
}
use not_so_simple_software_f.Cron.Field.{CronField}

-- What is read of an instant in the schedule's location.
pub record LocalTime : Type 0 where
  pub minute : ℕ
  pub hour : ℕ
  pub day : ℕ
  pub month : ℕ
  pub weekday : ℕ

pub record Calendar : Type 0 where
  pub local_at : ℕ → LocalTime
  pub ten_years_after : ℕ → ℕ

pub record CronSchedule : Type 0 where
  pub minute : CronField
  pub hour : CronField
  pub day_of_month : CronField
  pub month : CronField
  pub day_of_week : CronField

-- A field has a place for every value of its part of a LocalTime.
abbrev allows : CronField → ℕ → Bool
allows field value = get_or field.allowed value false

abbrev day_matches : Bool → Bool → Bool → Bool → Bool
day_matches month_wildcard week_wildcard in_month in_week =
    if month_wildcard && week_wildcard
    then true
    else if month_wildcard
    then in_week
    else if week_wildcard
    then in_month
    else in_month || in_week

unfoldable pub matches : Calendar → CronSchedule → ℕ → Bool
matches calendar schedule candidate =
    let local = calendar.local_at candidate in
    if not (allows schedule.minute local.minute)
      || not (allows schedule.hour local.hour)
      || not (allows schedule.month local.month)
    then false
    else day_matches schedule.day_of_month.wildcard schedule.day_of_week.wildcard
        (allows schedule.day_of_month local.day) (allows schedule.day_of_week local.weekday)

-- The loop over the minutes, with fuel for each of them.
unfoldable pub search : Calendar → CronSchedule → ℕ → ℕ → Option ℕ
search calendar schedule zero candidate = none
search calendar schedule (suc fuel) candidate =
    let rest = search calendar schedule fuel (suc candidate) in
    if matches calendar schedule candidate then some candidate else rest

-- The whole minute after an instant.
abbrev pub first_candidate : ℕ → ℕ
first_candidate after = suc (after / 60000)

unfoldable pub next : Calendar → CronSchedule → ℕ → Option ℕ
next calendar schedule after =
    let candidate = first_candidate after in
    search calendar schedule (suc (calendar.ten_years_after candidate) - candidate) candidate

-- The first minute from `from` to `limit` that the schedule matches, or that there is none.
abbrev pub IsFirst : Calendar → CronSchedule → ℕ → ℕ → Option ℕ → Type 0
IsFirst calendar schedule from limit none =
    (u : ℕ) → from ≤ u → u ≤ limit → matches calendar schedule u ≡ false
IsFirst calendar schedule from limit (some t) =
    (from ≤ t)
    × (t ≤ limit)
    × (matches calendar schedule t ≡ true)
    × ((u : ℕ) → from ≤ u → u < t → matches calendar schedule u ≡ false)

-- A minute that is not before the first is the first, or after it.
not_before :
    (calendar : Calendar) (schedule : CronSchedule) (from u : ℕ)
    → from ≤ u
    → matches calendar schedule from ≡ false
    → (suc from ≤ u → matches calendar schedule u ≡ false)
    → matches calendar schedule u ≡ false
not_before calendar schedule from u lo missed past = elim (Bool-cases (from == u)) [
  | inl same ↦
      let e : from ≡ u = ground (arith, same) in
      subst (λ x. matches calendar schedule x ≡ false) e missed
  | inr other ↦ past (ground (arith, other, lo))
]

IsFirst-later :
    (calendar : Calendar) (schedule : CronSchedule) (from limit : ℕ) (r : Option ℕ)
    → matches calendar schedule from ≡ false
    → IsFirst calendar schedule (suc from) limit r
    → IsFirst calendar schedule from limit r
IsFirst-later calendar schedule from limit none missed h =
    λ u lo hi. not_before calendar schedule from u lo missed (λ past. h u past hi)
IsFirst-later calendar schedule from limit (some t) missed h = (
  omega (arith, h.0),
  h.1,
  h.2,
  λ u lo hi. not_before calendar schedule from u lo missed (λ past. h.3 u past hi),
)

search-IsFirst :
    (calendar : Calendar) (schedule : CronSchedule) (fuel from limit : ℕ)
    → suc limit ≡ from + fuel
    → IsFirst calendar schedule from limit (search calendar schedule fuel from)
unfolding search
search-IsFirst calendar schedule zero from limit fueled =
    λ u lo hi. absurd (omega (arith, fueled, lo, hi))
search-IsFirst calendar schedule (suc fuel) from limit fueled =
    elim (Bool-cases (matches calendar schedule from)) [
      | inl found ↦
          rw found
            (omega arith, omega (arith, fueled), found, λ u lo hi. absurd (omega (arith, lo, hi)))
      | inr missed ↦ rw missed (
          IsFirst-later calendar schedule from limit _ missed
            (search-IsFirst calendar schedule fuel (suc from) limit (omega (arith, fueled))))
    ]

-- Where the search has room, the next instant of a schedule is the first whole minute after the given
-- instant that matches, and there is none only when no minute of the next ten years matches.
pub next-IsFirst :
    (calendar : Calendar) (schedule : CronSchedule) (after : ℕ)
    → first_candidate after ≤ calendar.ten_years_after (first_candidate after)
    → (after < first_candidate after * 60000)
      × IsFirst calendar schedule
          (first_candidate after)
          (calendar.ten_years_after (first_candidate after))
          (next calendar schedule after)
unfolding next
next-IsFirst calendar schedule after room = (
  omega arith,
  search-IsFirst calendar schedule _ (first_candidate after) _ (omega (arith, room)),
)
