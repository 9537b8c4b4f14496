-- ===== src/Cron/Examples.antt =====
-- Cron fields and schedules at concrete inputs.
use not_so_simple_software_f.Prelude.{
  ◌+◌, ◌*◌, ◌++◌, ◌/◌, ◌%◌, ◌<◌, ◌≡◌, ◌↔◌, refl, true, false, [], ◌∷◌, some, get_or, replicate,
  arith,
}
use not_so_simple_software_f.Cron.Text.{split, cut, atoi, digits, is_upper}
use not_so_simple_software_f.Cron.Field.{
  parsed, refused, panicked, months, weekdays, parse_cron_value, named_or, parse_step, parse_range,
  parse_base, parse_item, mark, Item, mark_item, mark_items, CronField, parse_cron_field,
}
use not_so_simple_software_f.Cron.Field.Selection.{Selected, parse_cron_field-Selected}
use not_so_simple_software_f.Cron.Next.{
  Calendar, CronSchedule, matches, search, next, IsFirst, next-IsFirst,
}

abbrev working_days : CronField
working_days = record {
  allowed = true ∷ true ∷ false ∷ true ∷ false ∷ true ∷ false ∷ false ∷ [];
  wildcard = false;
}

working_days_parsed : parse_cron_field weekdays 0 7 true "mon-FRI/2,7" ≡ parsed working_days
unfolding parse_cron_field mark_items parse_item parse_step parse_base parse_range parse_cron_value
    named_or mark_item mark split cut atoi digits is_upper
working_days_parsed = refl

-- A step that leads past 2^63.
wide_step_panics : parse_cron_field [] 0 5 false "1/9223372036854775807" ≡ panicked
unfolding parse_cron_field mark_items parse_item parse_step parse_base parse_range parse_cron_value
    named_or mark_item mark split cut atoi digits is_upper
wide_step_panics = refl

backward_range_refused : parse_cron_field months 1 12 false "MAR-JAN" ≡ refused
unfolding parse_cron_field mark_items parse_item parse_step parse_base parse_range parse_cron_value
    named_or mark_item mark split cut atoi digits is_upper
backward_range_refused = refl

parse_cron_field-Selected_example :
    (get_or working_days.allowed 3 false ≡ true)
    ↔ Selected weekdays 0 7 true 3 (split b',' "mon-FRI/2,7")
parse_cron_field-Selected_example =
    parse_cron_field-Selected weekdays 0 7 true "mon-FRI/2,7" working_days 3
      (
        omega arith,
        (
          omega arith,
          (omega arith, (omega arith, (omega arith, (omega arith, (omega arith, tt))))),
        ),
      )
      (omega arith) working_days_parsed

abbrev wide_item : Item
wide_item = record { start = 1; end = 5; step = 9223372036854775807 }

-- Days of one week, in one time zone, without months.
abbrev calendar : Calendar
calendar = record {
  local_at = λ m. record {
    minute = m % 60;
    hour = m / 60 % 24;
    day = 1;
    month = 1;
    weekday = m / 1440 % 7;
  };
  ten_years_after = λ m. m + 20;
}

abbrev every : CronField
every = record { allowed = replicate 60 true; wildcard = true }

-- At five past every hour.
abbrev hourly : CronSchedule
hourly = record {
  minute = record { allowed = replicate 5 false ++ true ∷ []; wildcard = false };
  hour = every;
  day_of_month = every;
  month = every;
  day_of_week = every;
}

next-IsFirst_example : (60000 < 2 * 60000) × IsFirst calendar hourly 2 22 (some 5)
unfolding next search matches
next-IsFirst_example = next-IsFirst calendar hourly 60000 (omega arith)
