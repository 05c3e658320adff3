-- ===== src/Router/Goal.antt =====
-- crates/orion-router/src/goal_frame.rs: the plan that execution pursues. `Value` is a JSON value,
-- and `lower` the standard library's `to_lowercase`. A duration is a number of nanoseconds.
use orion_dock.Prelude.{
  ℕ, ◌*◌, String, Bool, true, false, ◌&&◌, ◌||◌, Option, none, some, List, [], ◌∷◌, ◌++◌, eqb,
  if◌then◌else◌, is_empty, find_first, filter_map, contains_text, before_char, replace_char, concat,
}

pub data IntentCategory : Type 0 where
  configure search create diagnose communicate analyze modify monitor : IntentCategory
  other : String → IntentCategory

pub record Intent : Type 0 where
  pub category : IntentCategory
  pub summary : String
  pub implicit_requirements : List String

pub record ToolVerifier (Value : Type 0) : Type 0 where
  pub tool : String
  pub args : Value
  pub expected : String

pub record Criterion (Value : Type 0) : Type 0 where
  pub id : String
  pub description : String
  pub verifier : Option (ToolVerifier Value)

pub data QualityPriority : Type 0 where
  must should nice : QualityPriority

pub record QualityCriterion : Type 0 where
  pub id : String
  pub description : String
  pub priority : QualityPriority

pub record Risk : Type 0 where
  pub failure_mode : String
  pub mitigation : String
  pub fallback : String

pub record Approach : Type 0 where
  pub steps : List String
  pub rationale : String
  pub estimated_tool_calls : ℕ

pub record GoalFrame (Value : Type 0) : Type 0 where
  pub intent : Intent
  pub done_criteria : List (Criterion Value)
  pub good_criteria : List QualityCriterion
  pub risk_assessment : List Risk
  pub suggested_approach : Approach
  pub abort_conditions : List String
  pub max_iterations : ℕ
  pub time_budget : Option ℕ

-- The `Debug` name of a category; `debug` is the `{:?}` of a text.
abbrev category_name : (String → String) → IntentCategory → String
category_name debug IntentCategory.configure = "Configure"
category_name debug IntentCategory.search = "Search"
category_name debug IntentCategory.create = "Create"
category_name debug IntentCategory.diagnose = "Diagnose"
category_name debug IntentCategory.communicate = "Communicate"
category_name debug IntentCategory.analyze = "Analyze"
category_name debug IntentCategory.modify = "Modify"
category_name debug IntentCategory.monitor = "Monitor"
category_name debug (IntentCategory.other s) = concat ("Other(" ∷ debug s ∷ ")" ∷ [])

abbrev pub is_io_intent : IntentCategory → Bool
is_io_intent IntentCategory.configure = true
is_io_intent IntentCategory.create = true
is_io_intent IntentCategory.modify = true
is_io_intent IntentCategory.communicate = true
is_io_intent _ = false

abbrev issue_if : Bool → String → List String
issue_if b text = if b then text ∷ [] else []

-- Whether a risk's description names the category of the key, or the whole key.
unfoldable pub matches_risk : (String → String) → String → Risk → Bool
matches_risk lower failure_kind_key r =
    let fm_lower = lower r.failure_mode in
    let key_lower = lower failure_kind_key in
    let prefix_words = replace_char b'_' " " (before_char b':' key_lower) in
    contains_text fm_lower prefix_words || contains_text fm_lower key_lower

module _ {Value : Type 0} where
  abbrev unverified : Criterion Value → Option String
  unverified c = elim c.verifier [
    | some v ↦ none
    | none ↦ some (
        concat (
          "done_criteria '" ∷ c.id
          ∷ "' has no verifier — completion cannot be structurally confirmed" ∷ []))
  ]

  unfoldable pub validate : (String → String) → GoalFrame Value → List String
  validate debug g =
      issue_if (is_empty g.done_criteria) "GoalFrame has no done_criteria"
      ++ (filter_map unverified g.done_criteria
          ++ (issue_if (is_io_intent g.intent.category && is_empty g.risk_assessment) (
                concat (
                  "GoalFrame for "
                  ∷ category_name debug g.intent.category
                  ∷ " intent has empty risk_assessment — I/O tasks should anticipate failures"
                  ∷ []))
              ++ issue_if (eqb g.max_iterations 0) "max_iterations must be at least 1"))

  unfoldable pub find_matching_risk : (String → String) → GoalFrame Value → String → Option Risk
  find_matching_risk lower g failure_kind_key =
      find_first (matches_risk lower failure_kind_key) g.risk_assessment

  unfoldable pub fallback : String → GoalFrame Value
  fallback user_summary = record {
    intent = record {
      category = IntentCategory.other "unknown";
      summary = user_summary;
      implicit_requirements =
          "Report results clearly to the user" ∷ "Ask if something is unclear rather than guessing"
          ∷ [];
    };
    done_criteria =
        record { id = "d1"; description = "User's request is addressed"; verifier = none } ∷ [];
    good_criteria = [];
    risk_assessment = [];
    suggested_approach = record {
      steps = "Attempt the user's request directly" ∷ [];
      rationale = "Fallback plan — Planner did not produce structured output";
      estimated_tool_calls = 3;
    };
    abort_conditions = "Three consecutive failures with the same error" ∷ [];
    max_iterations = 5;
    time_budget = some (120 * 1000000000);
  }
