-- ===== src/Store/Cost.antt =====
-- attemptCostColumns (factory/internal/controlplane/state.go): validation of a completion's cost.
-- A float64 amount is a signed number in a fixed unit; JSON's encoding of the models is a parameter.
use not_so_simple_software_f.Prelude.{
  ℕ, Bool, true, false, ◌||◌, String, len, Option, none, some, List, [], ◌∷◌, ltb, str_eq, ℤ, pos,
  eq_ℤ, ◌&&◌, is_negative, if◌then◌else◌,
}
use not_so_simple_software_f.Service.{Result, ok, err, invalid, refuse_if, ◌>>=◌, ◌>>◌}
use not_so_simple_software_f.Store.Rows.{AttemptCost}

-- protocol.Usage
pub record Usage : Type 0 where
  pub input_tokens : ℤ
  pub cache_creation_input_tokens : ℤ
  pub cache_read_input_tokens : ℤ
  pub output_tokens : ℤ

-- protocol.ModelUsage
pub record ModelUsage : Type 0 where
  pub input_tokens : ℤ
  pub cache_creation_input_tokens : ℤ
  pub cache_read_input_tokens : ℤ
  pub output_tokens : ℤ
  pub cost_usd : ℤ

-- A Go map as the list of its entries, in the order in which `range` happens to give them.
abbrev pub Models : Type 0
Models = List (String × ModelUsage)

-- What a completion carries: `none` where the pointer or the map is nil.
pub record ReportedCost : Type 0 where
  pub cost_usd : Option ℤ
  pub usage : Option Usage
  pub models : Option Models

abbrev pub max_models_bytes : ℕ
max_models_bytes = 8192

abbrev pub no_cost : AttemptCost
no_cost = record {
  cost_usd = none;
  input_tokens = none;
  cache_creation_input_tokens = none;
  cache_read_input_tokens = none;
  output_tokens = none;
  models = none;
}

abbrev negative_usage : Usage → Bool
negative_usage u =
    is_negative u.input_tokens
    || is_negative u.cache_creation_input_tokens
    || is_negative u.cache_read_input_tokens
    || is_negative u.output_tokens

abbrev negative_model : ModelUsage → Bool
negative_model m =
    is_negative m.cost_usd
    || is_negative m.input_tokens
    || is_negative m.cache_creation_input_tokens
    || is_negative m.cache_read_input_tokens
    || is_negative m.output_tokens

abbrev pub invalid_cost : {A : Type 0} → Result A
invalid_cost = err (invalid "invalid_cost")

check_models : Models → Result (Unit {0})
check_models [] = ok tt
check_models ((name, model) ∷ rest) =
    let later = check_models rest in
    if str_eq name "" then invalid_cost else if negative_model model then invalid_cost else later

with_cost_usd : Option ℤ → AttemptCost → Result AttemptCost
with_cost_usd none columns = ok columns
with_cost_usd (some amount) columns =
    if is_negative amount then invalid_cost else ok (record columns { cost_usd = some amount })

with_usage : Option Usage → AttemptCost → Result AttemptCost
with_usage none columns = ok columns
with_usage (some u) columns =
    if negative_usage u
    then invalid_cost
    else ok (record columns {
      input_tokens = some u.input_tokens;
      cache_creation_input_tokens = some u.cache_creation_input_tokens;
      cache_read_input_tokens = some u.cache_read_input_tokens;
      output_tokens = some u.output_tokens;
    })

with_models : (Models → String) → Option Models → AttemptCost → Result AttemptCost
unfolding check_models
with_models encode none columns = ok columns
with_models encode (some []) columns = invalid_cost
with_models encode (some (entry ∷ rest)) columns = do
  check_models (entry ∷ rest)
  let encoded = encode (entry ∷ rest)
  refuse_if (ltb max_models_bytes (len encoded)) (invalid "invalid_cost")
  ok (record columns { models = some encoded })

unfoldable pub attempt_cost_columns : (Models → String) → ReportedCost → Result AttemptCost
unfolding with_cost_usd with_usage with_models
attempt_cost_columns encode reported = do
  priced ← with_cost_usd reported.cost_usd no_cost
  counted ← with_usage reported.usage priced
  with_models encode reported.models counted

abbrev present : Option ℤ → Bool
present none = false
present (some n) = true

abbrev or_zero : Option ℤ → Option ℤ
or_zero none = some (pos 0)
or_zero (some n) = some n

-- stageCost.bound (stage_runs.go): the columns that a stored stage would bind again. The four counts
-- are bound together as soon as one of them is stored.
unfoldable pub bound : AttemptCost → AttemptCost
bound c =
    if present c.input_tokens
      || present c.cache_creation_input_tokens
      || present c.cache_read_input_tokens
      || present c.output_tokens
    then record c {
      input_tokens = or_zero c.input_tokens;
      cache_creation_input_tokens = or_zero c.cache_creation_input_tokens;
      cache_read_input_tokens = or_zero c.cache_read_input_tokens;
      output_tokens = or_zero c.output_tokens;
    }
    else c

abbrev eq_count : Option ℤ → Option ℤ → Bool
eq_count none none = true
eq_count (some a) (some b) = eq_ℤ a b
eq_count _ _ = false

abbrev eq_models : Option String → Option String → Bool
eq_models none none = true
eq_models (some a) (some b) = str_eq a b
eq_models _ _ = false

-- Go's `==` on two attemptCost values.
unfoldable pub eq_cost : AttemptCost → AttemptCost → Bool
eq_cost a b =
    eq_count a.cost_usd b.cost_usd
    && eq_count a.input_tokens b.input_tokens
    && eq_count a.cache_creation_input_tokens b.cache_creation_input_tokens
    && eq_count a.cache_read_input_tokens b.cache_read_input_tokens
    && eq_count a.output_tokens b.output_tokens
    && eq_models a.models b.models
