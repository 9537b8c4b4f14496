-- ===== src/Stage.antt =====
-- The stages of a Pipeline, as the control plane and the Workers describe them to each other: kinds of
-- stage (factory/internal/protocol/stage_kind.go) and how a stage is executed
-- (factory/internal/protocol/stage_execution.go).
pub mod Report
pub mod Precedence
mod Examples
use not_so_simple_software_f.Prelude.{
  ◌≡◌, Bool, true, false, ◌&&◌, ◌||◌, String, List, [], ◌∷◌, str_eq, if◌then◌else◌,
}
use not_so_simple_software_f.Cron.Text.{is_empty}

abbrev pub kind_agent : String
kind_agent = "agent"

abbrev pub kind_code : String
kind_code = "code"

abbrev pub kind_delivery : String
kind_delivery = "delivery"

-- The runtime that can deny tools, and has a list of models.
abbrev pub runtime_claude_code : String
runtime_claude_code = "claude-code"

unfoldable pub read_only_runtime : String → Bool
read_only_runtime runtime = str_eq runtime runtime_claude_code

-- The empty text is a stage from before there were kinds.
unfoldable pub stage_kind : String → String
stage_kind value = if is_empty value then kind_agent else value

unfoldable pub supported_stage_kind : String → Bool
supported_stage_kind value =
    str_eq (stage_kind value) kind_agent
    || str_eq (stage_kind value) kind_code
    || str_eq (stage_kind value) kind_delivery

unfoldable pub is_code_stage : String → Bool
is_code_stage value = str_eq (stage_kind value) kind_code

unfoldable pub is_delivery_stage : String → Bool
is_delivery_stage value = str_eq (stage_kind value) kind_delivery

unfoldable pub supported_network_posture : String → Bool
supported_network_posture value =
    str_eq value "none" || str_eq value "allowlist" || str_eq value "open" || str_eq value "broker"

unfoldable pub implemented_network_posture : String → Bool
implemented_network_posture value =
    str_eq value "none" || str_eq value "open" || str_eq value "broker"

pub record StageExecution : Type 0 where
  pub model : String
  pub effort : String

pub record StageDefaults : Type 0 where
  pub model : String
  pub effort : String

unfoldable pub empty_execution : StageExecution → Bool
empty_execution e = is_empty e.model && is_empty e.effort

unfoldable pub one_of : String → List String → Bool
one_of value [] = false
one_of value (x ∷ rest) = str_eq value x || one_of value rest

unfoldable pub supported_efforts : List String
supported_efforts = "low" ∷ "medium" ∷ "high" ∷ "xhigh" ∷ "max" ∷ []

unfoldable pub supported_effort : String → Bool
supported_effort value = one_of value supported_efforts

unfoldable pub supported_models : String → List String
supported_models runtime =
    if str_eq runtime runtime_claude_code then "opus" ∷ "sonnet" ∷ "haiku" ∷ "fable" ∷ [] else []

unfoldable pub supported_model : String → String → Bool
supported_model runtime value = one_of value (supported_models runtime)

unfoldable pub first_non_empty : List String → String
first_non_empty [] = ""
first_non_empty (value ∷ rest) =
    let later = first_non_empty rest in if is_empty value then later else value

unfoldable pub resolve_stage_execution :
    StageExecution → StageExecution → StageDefaults → StageExecution
resolve_stage_execution override stage defaults = record {
  model = first_non_empty (override.model ∷ stage.model ∷ defaults.model ∷ []);
  effort = first_non_empty (override.effort ∷ stage.effort ∷ defaults.effort ∷ []);
}
