-- ===== src/Router/Prompts.antt =====
-- The texts and messages of the governor: `format_state_summary` of
-- crates/orion-router/src/execution_state.rs and the builders of crates/orion-router/src/governor.rs.
-- `debug` is the standard library's `{:?}` of a list of texts; `none` stands for a panic.
use orion_dock.Prelude.{
  ℕ, ◌+◌, ◌-◌, String, Bool, false, Option, none, some, List, [], ◌∷◌, ◌++◌, map, reverse,
  if◌then◌else◌, length, get_elem?, any, keep, ◌==◌, join, decimal, concat,
}
use mathlib.Core.Bool.{xor}
use orion_dock.Skills.Failure.{Constraint, kind_key, constraint_text}
use orion_dock.Router.Goal.{Criterion, Risk}
use orion_dock.Router.Execution.{
  Strategy, CriterionStatus, AttemptResult, Attempt, ExecutionState, is_met, is_success, ◌>>=◌,
}

-- `Message::new`: the fields that it leaves empty are not modelled.
pub record Message : Type 0 where
  pub role : String
  pub content : String

abbrev pub message : String → String → Message
message role content = record { role = role; content = content }

pub record SessionContext : Type 0 where
  pub agent_id : String
  pub agent_name : String
  pub system_prompt : String
  pub conversation_history : List Message

pub record ToolResultRef : Type 0 where
  pub tool : String
  pub success : Bool
  pub output_summary : String

pub record ChatResponse : Type 0 where
  pub content : String
  pub tool_log : List ToolResultRef

-- The `Display` of a strategy.
unfoldable pub strategy_text : Strategy → String
strategy_text Strategy.initial = "Follow the suggested approach"
strategy_text Strategy.retry_with_constraints =
    "Previous attempt partially failed — retry with discovered constraints applied"
strategy_text Strategy.alternative_approach =
    "Previous approach FAILED REPEATEDLY — try a fundamentally different approach"
strategy_text Strategy.escalate_to_user = "Escalating to user for input"
strategy_text Strategy.abort = "Aborting — all options exhausted"

-- `1. …` before each text, from `i + 1` on.
abbrev numbered : ℕ → List String → List String
numbered i [] = []
numbered i (t ∷ ts) = concat (decimal (i + 1) ∷ ". " ∷ t ∷ []) ∷ numbered (i + 1) ts

abbrev pub result_text : AttemptResult → Option String
result_text (AttemptResult.success summary) = some (concat ("OK: " ∷ summary ∷ []))
result_text (AttemptResult.failure f) = do key ← kind_key f; some (concat ("FAILED: " ∷ key ∷ []))

-- One line for each attempt, from number `i + 1` on.
unfoldable pub attempt_lines : ℕ → List Attempt → Option String
attempt_lines i [] = some ""
attempt_lines i (a ∷ more) = do
  result ← result_text a.result
  rest ← attempt_lines (i + 1) more
  some (
      concat (
        decimal (i + 1)
        ∷ ". [iter "
        ∷ decimal (a.iteration + 1)
        ∷ "] "
        ∷ a.tool
        ∷ "("
        ∷ a.args_summary
        ∷ ") → "
        ∷ result
        ∷ "\n"
        ∷ rest
        ∷ []))

abbrev constraint_lines : (List String → String) → String → String → List Constraint → String
constraint_lines debug before after [] = ""
constraint_lines debug before after (c ∷ cs) =
    concat (before ∷ constraint_text debug c ∷ after ∷ constraint_lines debug before after cs ∷ [])

abbrev status_text : Option CriterionStatus → String
status_text none = "UNKNOWN"
status_text (some CriterionStatus.not_attempted) = "NOT ATTEMPTED"
status_text (some CriterionStatus.in_progress) = "IN PROGRESS"
status_text (some (CriterionStatus.met _)) = "MET"
status_text (some (CriterionStatus.failed _)) = "FAILED"

abbrev is_met? : Option CriterionStatus → Bool
is_met? none = false
is_met? (some s) = is_met s

-- The last failure, as its tool and its key.
abbrev pub last_failure : List Attempt → Option (List String)
last_failure [] = some []
last_failure (a ∷ more) = elim a.result [
  | AttemptResult.success _ ↦ last_failure more
  | AttemptResult.failure f ↦ do
    key ← kind_key f
    some (concat ("\nThe last failure was in '" ∷ a.tool ∷ "': " ∷ key ∷ []) ∷ [])
]

abbrev pub constraint_parts : String → (List String → String) → List Constraint → List String
constraint_parts title debug [] = []
constraint_parts title debug l = title ∷ map (λ c. concat ("  - " ∷ constraint_text debug c ∷ [])) l

-- One part for each failure whose key was not seen before.
abbrev pub unique_failures : List String → List Attempt → Option (List String)
unique_failures seen [] = some []
unique_failures seen (a ∷ more) = elim a.result [
  | AttemptResult.success _ ↦ unique_failures seen more
  | AttemptResult.failure f ↦ do
    key ← kind_key f
    rest ← unique_failures (key ∷ seen) more
    some (
        if any (λ k. k == key) seen
        then rest
        else concat ("  - " ∷ key ∷ " on '" ∷ a.tool ∷ "': " ∷ a.args_summary ∷ []) ∷ rest)
]

abbrev rules : String
rules = concat (
    "### Rules for This Iteration\n"
    ∷ "- NEVER repeat a tool call with identical parameters to a failed attempt above\n"
    ∷ "- If a constraint says a path is blocked, use the alternative path listed\n"
    ∷ "- If a constraint says a host is unreachable, use the alternative host listed\n"
    ∷ "- State your reasoning before each tool call\n" ∷ [])

abbrev constraints_block : (List String → String) → List Constraint → String
constraints_block debug [] = ""
constraints_block debug l = concat (
    "### Constraints Discovered (RESPECT THESE)\n" ∷ constraint_lines debug "- " "\n" l ∷ "\n" ∷ [])

abbrev pub attempts_block : List Attempt → Option String
attempts_block [] = some ""
attempts_block l = do
  lines ← attempt_lines 0 l
  some (concat ("### What You've Tried\n" ∷ lines ∷ "\n" ∷ []))

abbrev mitigation_text : Strategy → Option Risk → String
mitigation_text Strategy.alternative_approach (some risk) = concat (
    "- The planner anticipated this failure.\n  Suggested mitigation: " ∷ risk.mitigation
    ∷ "\n  If that fails: " ∷ risk.fallback ∷ "\n" ∷ [])
mitigation_text Strategy.alternative_approach none =
    "- The planner did not anticipate this failure. Think carefully about an alternative approach.\n"
mitigation_text _ _ = ""

module _ {Value : Type 0} where
  -- One line for each done criterion, from position `i` on.
  abbrev criterion_lines : List CriterionStatus → ℕ → List (Criterion Value) → String
  criterion_lines statuses i [] = ""
  criterion_lines statuses i (c ∷ cs) = concat (
      "- ["
      ∷ c.id
      ∷ "] "
      ∷ status_text (get_elem? statuses i)
      ∷ ": "
      ∷ c.description
      ∷ "\n"
      ∷ criterion_lines statuses (i + 1) cs
      ∷ [])

  -- The done criteria, from position `i` on, whose status does or does not say that they are met.
  unfoldable pub criteria_with :
      Bool → List CriterionStatus → ℕ → List (Criterion Value) → List (Criterion Value)
  criteria_with wanted statuses i [] = []
  criteria_with wanted statuses i (c ∷ cs) =
      let rest = criteria_with wanted statuses (i + 1) cs in
      if xor wanted (is_met? (get_elem? statuses i)) then rest else c ∷ rest

  unfoldable pub format_state_summary :
      (List String → String) → ExecutionState Value → Option String
  unfolding attempt_lines
  format_state_summary debug s = do
    tried ← attempts_block s.attempts
    some (
        concat (
          "## Execution State (Injected by Governor)\n\n### Goal\n"
          ∷ s.goal.intent.summary
          ∷ "\n\n### Iteration "
          ∷ decimal (s.iteration + 1)
          ∷ " of "
          ∷ decimal s.goal.max_iterations
          ∷ "\n\n### Strategy: "
          ∷ strategy_text s.strategy
          ∷ "\n\n"
          ∷ tried
          ∷ constraints_block debug s.constraints_discovered
          ∷ "### Done Criteria Status\n"
          ∷ criterion_lines s.criteria_status 0 s.goal.done_criteria
          ∷ "\n"
          ∷ rules
          ∷ mitigation_text s.strategy s.active_mitigation
          ∷ []))

  unfoldable pub build_initial_messages :
      String → ExecutionState Value → SessionContext → List Message
  build_initial_messages request s ctx =
      message "system" (
        concat (
          ctx.system_prompt
          ∷ "\n\n## Execution Plan\n\nGoal: "
          ∷ s.goal.intent.summary
          ∷ "\n\nApproach:\n"
          ∷ join "\n" (numbered 0 s.goal.suggested_approach.steps)
          ∷ "\n\nRationale: "
          ∷ s.goal.suggested_approach.rationale
          ∷ []))
      ∷ (ctx.conversation_history ++ message "user" request ∷ [])

  -- The state goes second, behind the first message.
  unfoldable pub augment_messages :
      (List String → String) → List Message → ExecutionState Value → Option (List Message)
  augment_messages debug [] s = do
    block ← format_state_summary debug s
    some (message "system" block ∷ [])
  augment_messages debug (m ∷ ms) s = do
    block ← format_state_summary debug s
    some (m ∷ message "system" block ∷ ms)

  unfoldable pub formulate_question : (List String → String) → ExecutionState Value → Option String
  formulate_question debug s = do
    failed ← last_failure (reverse s.attempts)
    some (
        join "\n" (
          concat ("I'm working on: " ∷ s.goal.intent.summary ∷ [])
          ∷ (constraint_parts "I've discovered these constraints:" debug s.constraints_discovered
              ++ (failed ++ "\nCan you help me resolve this?" ∷ []))))

  unfoldable pub diagnose : (List String → String) → ExecutionState Value → Option String
  diagnose debug s = do
    failures ← unique_failures [] s.attempts
    let total_attempts = length s.attempts
    let successes = length (keep is_success s.attempts)
    some (
        join "\n" (
          concat (
            "After "
            ∷ decimal total_attempts
            ∷ " attempts ("
            ∷ decimal successes
            ∷ " succeeded, "
            ∷ decimal (total_attempts - successes)
            ∷ " failed):"
            ∷ [])
          ∷ (failures
              ++ constraint_parts "\nConstraints discovered:" debug s.constraints_discovered)))
