-- ===== src/Router/Tests.antt =====
-- Concrete plans, models and tools for the router's theorems.
use orion_dock.Prelude.{
  ◌==◌, if◌then◌else◌, ℕ, ◌+◌, ◌≤◌, String, ◌≡◌, refl, sym, ap, subst, ◌↔◌, true, false, Option,
  none, some, List, [], ◌∷◌, eqb, if◌then◌else◌, ◌⧺◌, take_chars, is_blank, remove, insert,
}
use orion_dock.Skills.Failure.{Constraint, timeout, kind_key, path_blocked}
use orion_dock.Router.Goal.{GoalFrame, fallback}
use orion_dock.Router.Execution.{
  Strategy, CriterionStatus, AttemptResult, Attempt, Progress, ExecutionState, new, record_attempt,
  detect_progress, all_criteria_met, kind_keys,
}
use orion_dock.Router.Execution.Detection.{Repeats, detect_progress-looping_iff}
use orion_dock.Router.Prompts.{
  augment_messages, build_initial_messages, format_state_summary, format_state_summary,
  build_initial_messages, augment_messages, SessionContext,
}
use orion_dock.Router.Governor.{
  answered, call_model, act, generate_summary, evaluate, run_tools, body, Env, GovernedResult,
  execute, clip, attempt_result,
}
use orion_dock.Router.Governor.Loop.{Sound}
use orion_dock.Router.Governor.Outcomes.{execute-Sound}
use orion_dock.Router.Governor.Calls.{Counts}
use orion_dock.Router.Planner
use orion_dock.Router.Planner.{Planner, UserRequest, execute_request}
use orion_dock.Router.Planner.Calls.{execute_request-calls}
use orion_dock.Router.Governor.Guaranteed.{Cuttable, execute-returns}
use orion_dock.Router.Constraints.{ConstraintStore, Disk, add, load, save}
use orion_dock.Router.Constraints.Store.{load-save}

-- The first answer asks for one tool, every later one for none. The world counts the calls.
abbrev test_env : Env (Unit {0}) ℕ
test_env = record {
  complete = λ p ms w. (some "I have looked at it.", w + 1);
  execute_tool = λ name args w. (
    record { success = false; output_text = "slow"; structured_failure = some (timeout 5 "read") },
    w,
  );
  parse = λ text w. (
    (text, if eqb w 1 then record { name = "read"; args = tt; args_summary = "" } ∷ [] else []),
    w,
  );
  now = λ w. w;
  lower = λ s. s;
  debug = λ l. "";
}

abbrev plan : GoalFrame (Unit {0})
plan = record (fallback "look") { done_criteria = []; max_iterations = 3 }

abbrev open_plan : GoalFrame (Unit {0})
open_plan = record plan {
  done_criteria = record { id = "d1"; description = "looked"; verifier = none } ∷ [];
}

abbrev session : SessionContext
session = record {
  agent_id = "a";
  agent_name = "A";
  system_prompt = "p";
  conversation_history = [];
}

test-Cuttable : Cuttable test_env
unfolding clip attempt_result kind_key
test-Cuttable = record {
  output = λ name args w e. cc;
  failure = λ name args w f e k.
      let same : timeout 5 "read" ≡ f = cc in
      let k' = subst (λ g. kind_key g ≡ none) (sym same) k in cc;
}

execute-returns_example :
    (r : GovernedResult (Unit {0})) × (w' : ℕ) × (execute test_env open_plan "look" session 0
      ≡ some (r, w'))
execute-returns_example = execute-returns test_env test-Cuttable open_plan "look" session 0

abbrev summary : GovernedResult (Unit {0})
summary = GovernedResult.success (record {
  content = "I have looked at it.";
  tool_log = record { tool = "read"; success = false; output_summary = "slow" } ∷ [];
})

test_run : execute test_env plan "look" session 0 ≡ some (summary, 2)
unfolding execute fallback body new augment_messages build_initial_messages format_state_summary
    run_tools detect_progress record_attempt all_criteria_met evaluate is_blank take_chars
    generate_summary act call_model answered
test_run = refl

execute-Sound_example : Sound plan summary
execute-Sound_example = execute-Sound test_env plan "look" session 0 test_run

test-Counts : Counts test_env (λ w. w)
test-Counts = record {
  one_each = λ p ms w. refl;
  tools_call_none = λ name args w. refl;
  parser_calls_none = λ text w. refl;
}

-- A planner whose answer is always the same plan
abbrev planner : Planner (Unit {0}) ℕ
planner = record {
  complete = λ ms w. (some "```json {} ```", w + 1);
  to_string_pretty = λ tools. none;
  from_str = λ s. if s == "{}" then some plan else none;
}

abbrev look : UserRequest (Unit {0})
look = record {
  text = "look";
  available_tools = [];
  known_constraints = [];
  agent_state_summary = "";
}

test_plan : Planner.plan planner look 0 ≡ (plan, 1)
unfolding Planner.plan
test_plan = refl

abbrev answer : GovernedResult (Unit {0})
answer = GovernedResult.success (record { content = "I have looked at it."; tool_log = [] })

test_request : execute_request planner test_env look session 0 ≡ some (answer, 2)
unfolding execute_request Planner.plan execute fallback body new augment_messages
    build_initial_messages format_state_summary run_tools detect_progress record_attempt
    all_criteria_met evaluate is_blank take_chars generate_summary act call_model answered
test_request = refl

execute_request-calls_example : 2 ≤ 0 + (Planner.plan planner look 0).0.max_iterations + 3
execute_request-calls_example =
    execute_request-calls planner (λ w. w) (λ ms w. refl) test_env test-Counts look session 0
      test_request

abbrev slow_read : ℕ → Attempt
slow_read i = record {
  iteration = i;
  tool = "read";
  args_summary = "";
  result = AttemptResult.failure (timeout 5 "read");
  timestamp = 0;
}

abbrev stuck : ExecutionState (Unit {0})
stuck = record {
  goal = open_plan;
  iteration = 1;
  started_at = 0;
  attempts = slow_read 0 ∷ slow_read 1 ∷ [];
  constraints_discovered = [];
  strategy = Strategy.initial;
  criteria_status = CriterionStatus.not_attempted ∷ [];
  active_mitigation = none;
}

test_unmet : all_criteria_met stuck ≡ false
unfolding all_criteria_met
test_unmet = refl

detect_progress-looping_iff_example :
    (detect_progress stuck ≡ some (Progress.looping "timeout:read")) ↔ Repeats stuck "timeout:read"
detect_progress-looping_iff_example = detect_progress-looping_iff stuck "timeout:read" test_unmet

test_looping : detect_progress stuck ≡ some (Progress.looping "timeout:read")
unfolding detect_progress all_criteria_met kind_keys kind_key
test_looping = refl

-- A JSON library that knows one shape of list.
abbrev print : List Constraint → Option String
print (path_blocked b [] ∷ []) = some b
print _ = none

abbrev parse : String → Option (List Constraint)
parse text = some (path_blocked text [] ∷ [])

print-parse : (l : List Constraint) (json : String) → print l ≡ some json → parse json ≡ some l
print-parse (path_blocked b [] ∷ []) json h = let same : b ≡ json = cc in ap parse (sym same)
print-parse _ json h = cc

abbrev test_disk : Disk
test_disk = record {
  from_str = parse;
  to_string_pretty = print;
  readable = λ p. true;
  writable = λ p. true;
  join_path = λ d f. d ⧺ f;
}

abbrev full_store : ConstraintStore
full_store = record {
  path = "data/governor_constraints.json";
  constraints = path_blocked "/etc" [] ∷ [];
}

test_save : save test_disk full_store [] ≡ some (("data/governor_constraints.json", "/etc") ∷ [])
unfolding save insert remove
test_save = refl

load-save_example :
    load test_disk (("data/governor_constraints.json", "/etc") ∷ []) "data/" ≡ full_store
load-save_example = load-save test_disk full_store "data/" [] print-parse refl refl test_save

abbrev blocked : List Constraint
blocked = path_blocked "/etc" [] ∷ path_blocked "/etc" [] ∷ []

abbrev store : ConstraintStore
store = record { path = "governor_constraints.json"; constraints = [] }

-- Duplicates within one batch are all kept.
test_duplicates : (add (λ l. "") store blocked).constraints ≡ blocked
unfolding add
test_duplicates = refl
