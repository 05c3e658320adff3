-- ===== src/Router/Governor.antt =====
-- crates/orion-router/src/governor.rs: the execution loop. What stands behind traits (the two
-- language models, the tool executor, the parser) and the clock are an environment over a world
-- `W`, so nothing is assumed of them. `execute` is what follows the plan, with its frame as an argument.
-- `none` stands for a panic.
pub mod Loop
pub mod Calls
pub mod Returns
pub mod Guaranteed
pub mod Outcomes
use orion_dock.Prelude.{
  ℕ, zero, suc, ◌+◌, ◌-◌, ◌/◌, String, Bool, true, false, not, ◌&&◌, Option, none, some, List, [],
  ◌∷◌, ◌++◌, map, ltb, if◌then◌else◌, length, is_empty, take_chars, join, decimal, concat, is_blank,
}
use mathlib.Core.Option
use Prim.Native.String.{len}
use text.Mathlib.Text.{get?}
use orion_dock.Skills.Failure.{StructuredFailure, unknown}
use orion_dock.Router.Goal.{GoalFrame, Criterion, Risk, find_matching_risk}
use orion_dock.Router.Execution.{
  Strategy, AttemptResult, Attempt, Progress, ExecutionState, new, record_attempt,
  set_active_mitigation, all_criteria_met, met_criteria_count, detect_progress, ◌>>=◌,
}
use orion_dock.Router.Prompts.{
  Message, message, SessionContext, ToolResultRef, ChatResponse, criteria_with,
  build_initial_messages, augment_messages, formulate_question, diagnose,
}

pub record ToolExecutionResult : Type 0 where
  pub success : Bool
  pub output_text : String
  pub structured_failure : Option StructuredFailure

pub record ParsedToolCall (Value : Type 0) : Type 0 where
  pub name : String
  pub args : Value
  pub args_summary : String

pub data Provider : Type 0 where
  executor recovery : Provider

pub record Env (Value W : Type 0) : Type 0 where
  -- `none` is a failed call.
  pub complete : Provider → List Message → W → Option String × W
  pub execute_tool : String → Value → W → ToolExecutionResult × W
  pub parse : String → W → (String × List (ParsedToolCall Value)) × W
  pub now : W → ℕ
  pub lower : String → String
  pub debug : List String → String

pub data GovernedResult (Value : Type 0) : Type 0 where
  success : ChatResponse → GovernedResult Value
  needs_input : (question : String) → ExecutionState Value → GovernedResult Value
  incomplete : ChatResponse → ExecutionState Value → GovernedResult Value
  max_iterations_reached : ExecutionState Value → (diagnosis : String) → GovernedResult Value
  time_budget_exceeded : ExecutionState Value → GovernedResult Value
  aborted : (reason : String) → ExecutionState Value → GovernedResult Value

-- What the execution of an iteration's tool calls adds up to.
pub record Batch (Value W : Type 0) : Type 0 where
  pub state : ExecutionState Value
  pub tool_log : List ToolResultRef
  pub texts : List String
  pub world : W

-- What a loop body does: return, or go on.
pub data Next (Value W : Type 0) : Type 0 where
  return : GovernedResult Value → W → Next Value W
  continue : ExecutionState Value → List Message → W → Next Value W

-- `&text[..500]` followed by dots, when the text is longer.
unfoldable pub clip : String → Option String
clip text =
    if ltb 500 (len text)
    then Option.map (λ cut. concat (cut ∷ "..." ∷ [])) (get? text 0 500)
    else some text

unfoldable pub attempt_result : ToolExecutionResult → AttemptResult
attempt_result r =
    if r.success
    then AttemptResult.success (take_chars 200 r.output_text)
    else AttemptResult.failure
        (elim r.structured_failure [ none ↦ unknown r.output_text | some f ↦ f ])

-- The model for a strategy; an escalating or aborting strategy has none.
abbrev pub provider_for : Strategy → Option Provider
provider_for Strategy.initial = some Provider.executor
provider_for Strategy.retry_with_constraints = some Provider.executor
provider_for Strategy.alternative_approach = some Provider.recovery
provider_for _ = none

module _ {Value : Type 0} where
  unfoldable pub user_message : GovernedResult Value → String
  unfolding met_criteria_count
  user_message (GovernedResult.success response) = response.content
  user_message (GovernedResult.needs_input question _) = question
  user_message (GovernedResult.incomplete response s) = concat (
      response.content
      ∷ "\n\n(Note: Task partially complete -- "
      ∷ decimal (met_criteria_count s)
      ∷ "/"
      ∷ decimal (length s.goal.done_criteria)
      ∷ " criteria met.)"
      ∷ [])
  user_message (GovernedResult.max_iterations_reached s diagnosis) = concat (
      "I reached the maximum number of attempts ("
      ∷ decimal s.goal.max_iterations
      ∷ ") for this task. "
      ∷ decimal (met_criteria_count s)
      ∷ "/"
      ∷ decimal (length s.goal.done_criteria)
      ∷ " criteria were met.\n\nDiagnosis: "
      ∷ diagnosis
      ∷ [])
  user_message (GovernedResult.time_budget_exceeded s) = concat (
      "The time budget for this task was exceeded. "
      ∷ decimal (met_criteria_count s)
      ∷ "/"
      ∷ decimal (length s.goal.done_criteria)
      ∷ " criteria were met before timeout."
      ∷ [])
  user_message (GovernedResult.aborted reason _) = concat ("Task aborted: " ∷ reason ∷ [])

  unfoldable pub is_success : GovernedResult Value → Bool
  is_success (GovernedResult.success _) = true
  is_success _ = false

  -- `state.started_at.elapsed() > budget`
  abbrev pub over_budget : ExecutionState Value → ℕ → Bool
  over_budget s now = elim s.goal.time_budget [
    | none ↦ false
    | some budget ↦ ltb budget (now - s.started_at)
  ]

  -- The strategy after a round of tool calls, with the mitigation that goes with it.
  unfoldable pub after_progress :
      (String → String) → ExecutionState Value → Progress → ExecutionState Value
  unfolding set_active_mitigation
  after_progress lower s (Progress.looping key) = elim (find_matching_risk lower s.goal key) [
    | some risk ↦ record (set_active_mitigation s (some risk)) {
      strategy = Strategy.alternative_approach;
    }
    | none ↦ record s { strategy = Strategy.escalate_to_user }
  ]
  after_progress lower s Progress.stalled = record s { strategy = Strategy.escalate_to_user }
  after_progress lower s Progress.making_progress = record s {
    strategy = Strategy.retry_with_constraints;
  }
  after_progress lower s (Progress.partial_success _ _) = record s {
    strategy = Strategy.retry_with_constraints;
  }
  after_progress lower s Progress.no_attempts = s
  after_progress lower s Progress.complete = s

  -- The prompt that follows an answer with no tool call, while criteria are open.
  abbrev continuation : ExecutionState Value → String
  continuation s = concat (
      "You stopped generating actions but the following done_criteria are not yet met:\n"
      ∷ join "\n" (
          map (λ c. concat ("[" ∷ c.id ∷ "] " ∷ c.description ∷ []))
            (criteria_with false s.criteria_status 0 s.goal.done_criteria))
      ∷ "\n\nContinue working to satisfy them."
      ∷ [])

  abbrev descriptions_met : ExecutionState Value → List String
  descriptions_met s =
      map (λ c. c.description) (criteria_with true s.criteria_status 0 s.goal.done_criteria)

  abbrev pub summary_request : (List String → String) → ExecutionState Value → List Message
  summary_request debug s =
      message "system" "You are a concise assistant. Summarize the task outcome for the user."
      ∷ message "user" (
          concat (
            "Summarize what was accomplished in 2-3 sentences:\n\nGoal: "
            ∷ s.goal.intent.summary
            ∷ "\n\nCriteria met: "
            ∷ debug (descriptions_met s)
            ∷ "\n\nTotal tool calls: "
            ∷ decimal (length s.attempts)
            ∷ []))
      ∷ []

  abbrev pub summary_fallback : ExecutionState Value → String
  summary_fallback s = concat (
      "Task completed: "
      ∷ s.goal.intent.summary
      ∷ ". "
      ∷ decimal (length (descriptions_met s))
      ∷ " criteria met."
      ∷ [])

module _ {Value W : Type 0} (env : Env Value W) where
  -- The loop over an iteration's tool calls.
  unfoldable pub run_tools :
      ℕ → List (ParsedToolCall Value) → Batch Value W → Option (Batch Value W)
  unfolding attempt_result clip
  run_tools iteration [] b = some b
  run_tools iteration (tc ∷ tcs) b =
      let (result, w) = env.execute_tool tc.name tc.args b.world in
      let attempt : Attempt = record {
        iteration = iteration;
        tool = tc.name;
        args_summary = tc.args_summary;
        result = attempt_result result;
        timestamp = env.now w;
      } in
      clip result.output_text >>= λ text. run_tools iteration tcs (record {
        state = record_attempt b.state attempt;
        tool_log =
            b.tool_log
            ++ record {
              tool = tc.name;
              success = result.success;
              output_summary = take_chars 200 result.output_text;
            }
              ∷ [];
        texts = b.texts ++ concat ("[" ∷ tc.name ∷ "] " ∷ text ∷ []) ∷ [];
        world = w;
      })

  -- The summary for the user: the last answer if it says enough, else one more call of the model.
  unfoldable pub generate_summary : ExecutionState Value → String → W → String × W
  generate_summary s last_content w =
      let answer = env.complete Provider.executor (summary_request env.debug s) w in
      if not (is_blank last_content) && ltb 20 (len last_content)
      then (last_content, w)
      else elim answer.0 [
        | some content ↦ (content, answer.1)
        | none ↦ (summary_fallback s, answer.1)
      ]

  -- An answer with no tool call.
  unfoldable pub stopped : ExecutionState Value → List Message → String → W → Next Value W
  stopped s messages content w =
      if all_criteria_met s
      then return (GovernedResult.success (record { content = content; tool_log = [] })) w
      else if ltb s.iteration (s.goal.max_iterations - 1)
      then continue (record s { strategy = Strategy.retry_with_constraints })
          (messages ++ message "assistant" content ∷ message "user" (continuation s) ∷ []) w
      else return (GovernedResult.incomplete (record { content = content; tool_log = [] }) s) w

  -- After the tool calls: loop detection and the choice of a strategy.
  unfoldable pub evaluate : Batch Value W → List Message → String → Progress → Next Value W
  unfolding generate_summary
  evaluate b messages content Progress.complete =
      let (summary, w) = generate_summary b.state content b.world in
      return (GovernedResult.success (record { content = summary; tool_log = b.tool_log })) w
  evaluate b messages content progress =
      continue (after_progress env.lower b.state progress)
        (messages
          ++ message "assistant" content
            ∷ message "user" (concat ("## Tool Results\n\n" ∷ join "\n\n" b.texts ∷ []))
            ∷ [])
        b.world

  -- An answer of the model: its tool calls are run and judged.
  unfoldable pub answered : ExecutionState Value → List Message → String → W → Option (Next Value W)
  unfolding stopped
  answered s messages response w =
      let (parsed, w1) = env.parse response w in
      let (content, tool_calls) = parsed in
      if is_empty tool_calls then some (stopped s messages content w1) else (do
        batch ←
            run_tools s.iteration tool_calls
              (record { state = s; tool_log = []; texts = []; world = w1 })
        progress ← detect_progress batch.state
        some (evaluate batch messages content progress))

  -- The call of the model for the current strategy; a failed call is retried.
  unfoldable pub call_model :
      Provider → ExecutionState Value → List Message → W → Option (Next Value W)
  unfolding answered
  call_model provider s messages w = do
    augmented ← augment_messages env.debug messages s
    let response = env.complete provider augmented w
    elim response.0 [
      | some content ↦ answered s messages content response.1
      | none ↦
          some
            (continue (record s { strategy = Strategy.retry_with_constraints }) messages response.1)
    ]

  -- The loop body, with `state.iteration` set.
  unfoldable pub act : ExecutionState Value → List Message → W → Option (Next Value W)
  unfolding call_model
  act s messages w = elim s.strategy [
    | Strategy.initial ↦ call_model Provider.executor s messages w
    | Strategy.retry_with_constraints ↦ call_model Provider.executor s messages w
    | Strategy.alternative_approach ↦ call_model Provider.recovery s messages w
    | Strategy.escalate_to_user ↦ do
      question ← formulate_question env.debug s
      some (return (GovernedResult.needs_input question s) w)
    | Strategy.abort ↦ do
      reason ← diagnose env.debug s
      some (return (GovernedResult.aborted reason s) w)
  ]

  unfoldable pub body : ExecutionState Value → List Message → W → Option (Next Value W)
  unfolding act
  body s messages w =
      if over_budget s (env.now w)
      then some (return (GovernedResult.time_budget_exceeded s) w)
      else act s messages w

  -- `for iteration in 0..max_iterations`, with `rounds` of them left.
  unfoldable pub run_loop :
      ℕ → ℕ → ExecutionState Value → List Message → W → Option (GovernedResult Value × W)
  run_loop zero iteration s messages w = do
    diagnosis ← diagnose env.debug s
    some (GovernedResult.max_iterations_reached s diagnosis, w)
  run_loop (suc rounds) iteration s messages w =
      elim (body (record s { iteration = iteration }) messages w) [
        | none ↦ none
        | some (return result w') ↦ some (result, w')
        | some (continue s' messages' w') ↦ run_loop rounds (iteration + 1) s' messages' w'
      ]

  unfoldable pub execute :
      GoalFrame Value → String → SessionContext → W → Option (GovernedResult Value × W)
  unfolding run_loop
  execute goal_frame request ctx w =
      let state = new goal_frame (env.now w) in
      run_loop goal_frame.max_iterations 0 state (build_initial_messages request state ctx) w
