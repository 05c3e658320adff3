-- ===== src/Router/Planner.antt =====
-- crates/orion-router/src/planner.rs: the frame for a request, by one call of a model, a second one to
-- repair an answer that does not parse, or else the minimal frame; and the execution of governor.rs from
-- the plan on. The model, serde_json's text of the tools and its parser of frames are parameters.
pub mod Calls
use Prim.Native.Char.{code}
use mathlib.Core.Option
use orion_dock.Prelude.{
  String, Bool, true, false, Option, none, some, List, [], ◌∷◌, eqb, if◌then◌else◌, is_empty, ◌⧺◌,
  ◌==◌, empty_text, join, concat, trim,
}
use orion_dock.Router.Goal.{GoalFrame, fallback}
use orion_dock.Router.Prompts.{Message, message, SessionContext}
use orion_dock.Router.Governor.{Env, GovernedResult, execute}

pub record UserRequest (Value : Type 0) : Type 0 where
  pub text : String  -- the field `message`
  pub available_tools : List Value
  pub known_constraints : List String
  pub agent_state_summary : String

-- `complete` gives `none` for a failed call.
pub record Planner (Value W : Type 0) : Type 0 where
  pub complete : List Message → W → Option String × W
  pub to_string_pretty : List Value → Option String
  pub from_str : String → Option (GoalFrame Value)

abbrev pub planning_prompt : String
planning_prompt = join "\n" (
    "You are the Planning Module of an autonomous agent. Your job is NOT to execute the user's request. Your job is to DEFINE what success looks like so the execution system can pursue it."
    ∷ "" ∷ "You will receive:" ∷ "1. The user's request"
    ∷ "2. Available tools and their capabilities"
    ∷ "3. Known constraints from previous experience (if any)" ∷ "4. The agent's current state" ∷ ""
    ∷ "You must produce a GoalFrame as JSON with these exact fields:" ∷ "" ∷ "{" ∷ "  \"intent\": {"
    ∷ "    \"category\": \"configure | search | create | diagnose | communicate | analyze | modify | monitor\","
    ∷ "    \"summary\": \"One sentence: what the user actually wants accomplished\","
    ∷ "    \"implicit_requirements\": ["
    ∷ "      \"Things the user didn't say but clearly expects\","
    ∷ "      \"Security/persistence/feedback expectations\"" ∷ "    ]" ∷ "  },"
    ∷ "  \"done_criteria\": [" ∷ "    {" ∷ "      \"id\": \"d1\","
    ∷ "      \"description\": \"Human-readable criterion\"," ∷ "      \"verifier\": {"
    ∷ "        \"tool\": \"tool_name_from_available_tools\"," ∷ "        \"args\": {},"
    ∷ "        \"expected\": \"What success looks like when this tool is called\"" ∷ "      }"
    ∷ "    }" ∷ "  ]," ∷ "  \"good_criteria\": [" ∷ "    {" ∷ "      \"id\": \"g1\","
    ∷ "      \"description\": \"Quality criterion beyond bare minimum\","
    ∷ "      \"priority\": \"Must | Should | Nice\"" ∷ "    }" ∷ "  ]," ∷ "  \"risk_assessment\": ["
    ∷ "    {" ∷ "      \"failure_mode\": \"A specific thing that could go wrong\","
    ∷ "      \"mitigation\": \"A specific action to take if it happens\","
    ∷ "      \"fallback\": \"What to do if the mitigation also fails\"" ∷ "    }" ∷ "  ],"
    ∷ "  \"suggested_approach\": {" ∷ "    \"steps\": [\"Ordered list of high-level steps\"],"
    ∷ "    \"rationale\": \"Why this approach over alternatives\","
    ∷ "    \"estimated_tool_calls\": 3" ∷ "  }," ∷ "  \"abort_conditions\": ["
    ∷ "    \"Specific conditions under which to stop and ask the user for help\"" ∷ "  ],"
    ∷ "  \"max_iterations\": 5," ∷ "  \"time_budget\": null" ∷ "}" ∷ "" ∷ "RULES:" ∷ ""
    ∷ "1. done_criteria must be VERIFIABLE. Each criterion should have a tool call that can confirm it was met. \"Email is working\" is NOT verifiable. \"fetch_emails returns at least 0 results without error\" IS verifiable."
    ∷ ""
    ∷ "2. Think about what will go WRONG, not just the happy path. Your risk_assessment is what prevents the executor from looping on failures. For ANY task involving file I/O, consider permission errors. For ANY task involving network calls, consider connectivity and auth errors. For ANY task in a container, consider host-vs-container networking."
    ∷ ""
    ∷ "3. If the request is ambiguous, define done_criteria for the most conservative interpretation and note the ambiguity in implicit_requirements."
    ∷ "" ∷ "4. implicit_requirements should capture expectations like:"
    ∷ "   - Credentials handled securely (not echoed, not logged)"
    ∷ "   - Configuration persists across restarts"
    ∷ "   - User is informed of what was accomplished"
    ∷ "   - Errors are reported clearly, not silently swallowed" ∷ ""
    ∷ "5. suggested_approach should SEQUENCE steps to fail fast:"
    ∷ "   - Test connectivity BEFORE writing configs"
    ∷ "   - Discover writable paths BEFORE attempting writes"
    ∷ "   - Verify credentials BEFORE attempting authenticated operations" ∷ ""
    ∷ "6. abort_conditions should be specific to the observed environment. \"Something goes wrong\" is useless. \"IMAP connection fails on all candidate hostnames after 2 attempts\" is useful."
    ∷ ""
    ∷ "7. estimated_tool_calls helps the Governor set expectations. If you estimate 3 calls and the executor has used 8, something is wrong."
    ∷ "" ∷ "RESPOND WITH ONLY THE JSON OBJECT. No markdown fences, no explanation, just valid JSON."
    ∷ [])

-- `s.strip_prefix(p)`, `s.strip_suffix(p)`
unfoldable pub strip_prefix : String → String → Option String
strip_prefix s String.[] = some s
strip_prefix String.[] (String.◌∷◌ d p) = none
strip_prefix (String.◌∷◌ c s) (String.◌∷◌ d p) =
    let rest = strip_prefix s p in if eqb (code c) (code d) then rest else none

unfoldable pub strip_suffix : String → String → Option String
strip_suffix String.[] p = if empty_text p then some "" else none
strip_suffix (String.◌∷◌ c s) p =
    let rest = strip_suffix s p in
    if String.◌∷◌ c s == p then some "" else Option.map (String.◌∷◌ c) rest

abbrev pub unwrap_or : {A : Type 0} → A → Option A → A
unwrap_or a none = a
unwrap_or a (some b) = b

abbrev pub or_else : {A : Type 0} → Option A → Option A → Option A
or_else (some a) other = some a
or_else none other = other

-- The text without the fences of a block of code
unfoldable pub cleaned : String → String
unfolding trim strip_prefix strip_suffix
cleaned text =
    let opened =
      unwrap_or (trim text)
        (or_else (strip_prefix (trim text) "```json") (strip_prefix (trim text) "```")) in
    trim (unwrap_or opened (strip_suffix opened "```"))

-- The outermost text of the error of a frame that does not parse
abbrev pub parse_error : String
parse_error = "Failed to parse GoalFrame JSON from planner response"

unfoldable pub repair_prompt : String → String → List Message
repair_prompt original_response error =
    message "system" planning_prompt
    ∷ message "user" (
        concat (
          "Your previous response could not be parsed as valid JSON.\n\nError: " ∷ error
          ∷ "\n\nYour response was:\n" ∷ original_response
          ∷ "\n\nPlease fix the JSON and respond with ONLY the corrected JSON object." ∷ []))
    ∷ []

module _ {Value W : Type 0} (planner : Planner Value W) where
  unfoldable pub build_prompt : UserRequest Value → List Message
  build_prompt request =
      message "system" (
        concat (
          planning_prompt
          ∷ "\n\nAVAILABLE TOOLS:\n"
          ∷ unwrap_or "[]" (planner.to_string_pretty request.available_tools)
          ∷ "\n\nKNOWN CONSTRAINTS FROM PREVIOUS SESSIONS:\n"
          ∷ (if is_empty request.known_constraints
              then "None known."
              else join "\n- " request.known_constraints)
          ∷ "\n\nAGENT STATE:\n"
          ∷ request.agent_state_summary
          ∷ []))
      ∷ message "user" request.text
      ∷ []

  unfoldable pub parse_goal_frame : String → Option (GoalFrame Value)
  unfolding cleaned
  parse_goal_frame text = planner.from_str (cleaned text)

  -- What becomes of the answer to the second call
  abbrev pub repaired : UserRequest Value → Option String → GoalFrame Value
  repaired request none = fallback request.text
  repaired request (some content) = unwrap_or (fallback request.text) (parse_goal_frame content)

  -- What becomes of the answer to the first call, with its frame if it parses
  abbrev pub planned :
      UserRequest Value → String → Option (GoalFrame Value) → W → GoalFrame Value × W
  planned request content (some frame) w = (frame, w)
  planned request content none w =
      let (answer, w') = planner.complete (repair_prompt content parse_error) w in
      (repaired request answer, w')

  abbrev pub answered : UserRequest Value → Option String → W → GoalFrame Value × W
  answered request none w = (fallback request.text, w)
  answered request (some content) w = planned request content (parse_goal_frame content) w

  unfoldable pub plan : UserRequest Value → W → GoalFrame Value × W
  unfolding build_prompt parse_goal_frame repair_prompt fallback
  plan request w =
      let (answer, w') = planner.complete (build_prompt request) w in answered request answer w'

  -- `ExecutionGovernor::execute`: the plan, then its execution
  unfoldable pub execute_request :
      Env Value W → UserRequest Value → SessionContext → W → Option (GovernedResult Value × W)
  unfolding plan
  execute_request env request ctx w =
      let (frame, w') = plan request w in execute env frame request.text ctx w'
