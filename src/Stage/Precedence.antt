-- ===== src/Stage/Precedence.antt =====
-- The precedence of what a draft, a Pipeline and the settings say about the execution of a stage.
use not_so_simple_software_f.Prelude.{
  ◌≡◌, inl, inr, refl, true, false, String, List, [], ◌∷◌, ◌++◌, Bool-cases,
}
use not_so_simple_software_f.Table.{All}
use not_so_simple_software_f.Cron.Text.{is_empty}
use not_so_simple_software_f.Stage.{
  StageExecution, StageDefaults, first_non_empty, resolve_stage_execution,
}

-- A level of the precedence that says nothing.
abbrev pub IsSilent : String → Type 0
IsSilent value = is_empty value ≡ true

-- What counts among the levels, the strongest first: a level that speaks below silent ones only, whatever
-- the levels after it say; or nothing, where every level is silent.
pub data Counts (value : String) : List String → Type 0 where
  nobody : {levels : List String} → value ≡ "" → All IsSilent levels → Counts value levels
  level :
      (above below : List String)
      → All IsSilent above
      → is_empty value ≡ false
      → Counts value (above ++ value ∷ below)

Counts-silent :
    (top : String) {value : String} {levels : List String}
    → IsSilent top
    → Counts value levels
    → Counts value (top ∷ levels)
Counts-silent top silent (nobody none_said all) = nobody none_said (silent, all)
Counts-silent top silent (level above below all speaks) =
    level (top ∷ above) below (silent, all) speaks

first_non_empty-Counts : (levels : List String) → Counts (first_non_empty levels) levels
unfolding first_non_empty
first_non_empty-Counts [] = nobody refl tt
first_non_empty-Counts (top ∷ rest) = elim (Bool-cases (is_empty top)) [
  | inl silent ↦ rw silent (Counts-silent top silent (first_non_empty-Counts rest))
  | inr speaks ↦ rw speaks (level [] rest tt speaks)
]

-- A stage is executed with the model, and with the effort, of the strongest level that names one, and each of
-- them is settled apart: a draft goes before the Pipeline, and the Pipeline before the settings. Only where
-- none of the three names one is it left empty.
pub resolve_stage_execution-Counts :
    (override stage : StageExecution) (defaults : StageDefaults)
    → Counts
        (resolve_stage_execution override stage defaults).model
        (override.model ∷ stage.model ∷ defaults.model ∷ [])
      × Counts
          (resolve_stage_execution override stage defaults).effort
          (override.effort ∷ stage.effort ∷ defaults.effort ∷ [])
unfolding resolve_stage_execution
resolve_stage_execution-Counts override stage defaults =
    (first_non_empty-Counts _, first_non_empty-Counts _)
