-- ===== src/Router/Routing.antt =====
-- crates/orion-router/src/router.rs: the check of the last user message and the routes to the local
-- model (Id) and to the cloud model (Ego). `u` and `upper` are the standard library's part, `json`
-- serde_json's. The texts of the log are not modelled.
pub mod Classifier
pub mod Safety
pub mod Streams
pub mod Fallback
mod Tests
use Prim.Native.String.{len}
use orion_dock.Prelude.{
  String, Bool, not, ◌&&◌, ◌||◌, Option, none, some, List, [], ◌∷◌, ◌++◌, leb, if◌then◌else◌,
  reverse, any, find_first, ◌==◌, empty_text, contains_text, starts_with, trim, concat,
}
use orion_dock.Core.Superego.{Unicode, check_user_message}
use orion_dock.Router.Provider.{
  Result, ok, err, ToolDefinition, Message, CompletionRequest, CompletionResponse, new, simple,
  Streamed, LlmProvider, whole, sent_whole,
}

pub data RouteDecision : Type 0 where
  routine complex : RouteDecision

pub data SuperegoResult : Type 0 where
  allow : SuperegoResult
  deny : (code : Option String) → (reason : String) → SuperegoResult
  advisory : (code : Option String) → (reason : String) → SuperegoResult

pub data SuperegoL2Mode : Type 0 where
  off advise enforce : SuperegoL2Mode

pub data EgoProvider : Type 0 where
  openai anthropic perplexity xai google : EgoProvider

-- `crates/orion-core/src/config.rs`
pub data RoutingMode : Type 0 where
  id_primary ego_primary : RoutingMode

-- A value's field that is a text: `value.get(key).and_then(|v| v.as_str())`.
pub record Reader (Value : Type 0) : Type 0 where
  pub parse : String → Option Value
  pub get_text : String → Value → Option String

-- `local_http` has a heartbeat only.
pub record IdEgoRouter (Value W : Type 0) : Type 0 where
  pub id : LlmProvider Value W
  pub ego : Option (LlmProvider Value W)
  pub ego_provider : Option EgoProvider
  pub superego : Option (LlmProvider Value W)
  pub superego_provider_name : Option String
  pub superego_mode : SuperegoL2Mode
  pub local_http : Option (W → Result Unit × W)
  pub mode : RoutingMode

abbrev pub allowlist_codes : List String
allowlist_codes =
    "MALWARE_CREATION" ∷ "WEAPONS_EXPLOSIVES" ∷ "ILLEGAL_DRUGS" ∷ "PII_DOXXING" ∷ "PROMPT_INJECTION"
    ∷ []

abbrev pub or_text : String → Option String → String
or_text default none = default
or_text default (some s) = s

-- The content of the last message of the user.
abbrev pub content_of : Option Message → String
content_of none = ""
content_of (some m) = m.content

unfoldable pub last_user_message : List Message → String
last_user_message messages = content_of (find_first (λ m. m.role == "user") (reverse messages))

unfoldable pub last_content : List Message → String
last_content [] = ""
last_content (m ∷ []) = m.content
last_content (m ∷ n ∷ ms) = last_content (n ∷ ms)

abbrev pub refusal : Option String → CompletionResponse
refusal code = record {
  content = concat (
      "I can't help with that request ("
      ∷ or_text "SAFETY_BLOCK" code
      ∷ "). If you're seeking defensive, educational, or preventive guidance, say that explicitly."
      ∷ []);
  tool_calls = none;
}

abbrev pub classifier_prompt : String
classifier_prompt =
    "You are a deterministic safety classifier.\nReturn ONLY valid JSON (no markdown, no prose).\nAllowed outputs:\n{\"verdict\":\"SAFE\"}\nor\n{\"verdict\":\"DENY\",\"code\":\"MALWARE_CREATION\"}\nWhere code must be one of: MALWARE_CREATION, WEAPONS_EXPLOSIVES, ILLEGAL_DRUGS, PII_DOXXING, PROMPT_INJECTION."

abbrev pub routing_prompt : String → String
routing_prompt user_message = concat (
    "Classify this user request. Reply with exactly one word: ROUTINE or COMPLEX.\nROUTINE = simple, factual, quick (e.g. time, date, definitions).\nCOMPLEX = creative, long-form, reasoning (e.g. essays, poems, analysis).\n\nUser request: "
    ∷ user_message ∷ "\n\nYour classification:" ∷ [])

-- What a denial of the classifier comes to under a mode.
abbrev pub denial : SuperegoL2Mode → String → SuperegoResult
denial SuperegoL2Mode.advise code =
    SuperegoResult.advisory (some code)
      (concat ("Blocked by safety classifier (" ∷ code ∷ ")" ∷ []))
denial SuperegoL2Mode.enforce code =
    SuperegoResult.deny (some code) (concat ("Blocked by safety classifier (" ∷ code ∷ ")" ∷ []))
denial SuperegoL2Mode.off code = SuperegoResult.allow

abbrev pub classifier_request : {Value : Type 0} → String → CompletionRequest Value
classifier_request message = simple (new "system" classifier_prompt ∷ new "user" message ∷ [])

unfoldable pub decision_of : (String → String) → CompletionResponse → RouteDecision
unfolding contains_text
decision_of upper response =
    if contains_text (upper response.content) "COMPLEX"
    then RouteDecision.complex
    else RouteDecision.routine

module _ {W : Type 0} where
  abbrev pub denied : SuperegoResult × W → Option CompletionResponse × W
  denied (SuperegoResult.deny code reason, w) = (some (refusal code), w)
  denied (SuperegoResult.advisory code reason, w) = (none, w)
  denied (SuperegoResult.allow, w) = (none, w)

  abbrev pub and_then : {A B : Type 0} → Result A × W → (A → W → Result B × W) → Result B × W
  and_then (ok a, w) k = k a w
  and_then (err e, w) k = (err e, w)

  -- `if let Some(deny) = … { return Ok(deny); }`
  abbrev pub unless_denied :
      Option CompletionResponse × W
      → (W → Result CompletionResponse × W)
      → Result CompletionResponse × W
  unless_denied (some response, w) k = (ok response, w)
  unless_denied (none, w) k = k w

  -- The first answer, or the fallback's if it failed.
  abbrev pub or_else :
      Result CompletionResponse × W
      → (W → Result CompletionResponse × W)
      → Result CompletionResponse × W
  or_else (ok response, w) k = (ok response, w)
  or_else (err e, w) k = k w

  -- The streams: a denial is sent whole.
  abbrev pub unless_denied_stream :
      Option CompletionResponse × W → (W → Streamed × W) → Streamed × W
  unless_denied_stream (some response, w) k = ((whole response, ok response), w)
  unless_denied_stream (none, w) k = k w

module _ {Value W : Type 0} where
  -- Ego if it is there, then Id.
  abbrev pub ego_then_id :
      IdEgoRouter Value W → CompletionRequest Value → W → Result CompletionResponse × W
  ego_then_id router request w = elim (router.ego) [
    | none ↦ router.id.complete request w
    | some ego ↦ or_else (ego.complete request w) (router.id.complete request)
  ]

  abbrev pub ego_or_id : IdEgoRouter Value W → LlmProvider Value W
  ego_or_id router = elim (router.ego) [ none ↦ router.id | some ego ↦ ego ]

  abbrev pub provider_for : IdEgoRouter Value W → RouteDecision → LlmProvider Value W
  provider_for router RouteDecision.complex = ego_or_id router
  provider_for router RouteDecision.routine = router.id

  unfoldable pub route_ego_primary :
      IdEgoRouter Value W → List Message → W → Result CompletionResponse × W
  route_ego_primary router messages w = ego_then_id router (simple messages) w

  unfoldable pub id_only : IdEgoRouter Value W → List Message → W → Result CompletionResponse × W
  id_only router messages w = router.id.complete (simple messages) w

  abbrev pub stream_decided :
      IdEgoRouter Value W → List Message → Result RouteDecision × W → Streamed × W
  stream_decided router messages (ok decision, w) =
      (provider_for router decision).stream (simple messages) w
  stream_decided router messages (err e, w) = (([], err e), w)

  -- Behind the events that Id sent before it failed.
  abbrev pub last_resort :
      IdEgoRouter Value W → CompletionRequest Value → Streamed × W → Streamed × W
  last_resort router request ((events, ok response), w) = ((events, ok response), w)
  last_resort router request ((events, err e), w) =
      let ((more, answer), w') = sent_whole (router.id.complete request w) in
      ((events ++ more, answer), w')

  -- Ego's events are handed on only when it succeeded.
  abbrev pub or_id_stream :
      IdEgoRouter Value W → CompletionRequest Value → Streamed × W → Streamed × W
  or_id_stream router request ((events, ok response), w) = ((events, ok response), w)
  or_id_stream router request ((events, err e), w) =
      last_resort router request (router.id.stream request w)

  abbrev pub stream_tools : IdEgoRouter Value W → CompletionRequest Value → W → Streamed × W
  stream_tools router request w = elim (router.ego) [
    | none ↦ router.id.stream request w
    | some ego ↦ or_id_stream router request (ego.stream request w)
  ]

module _ {Value : Type 0} (u : Unicode) (upper : String → String) (json : Reader Value) where
  unfoldable pub is_weather_prompt : String → Bool
  unfolding trim
  is_weather_prompt message =
      let normalized = u.to_lowercase (trim message) in
      leb (len normalized) 80
      && (starts_with normalized "what is the weather"
          || starts_with normalized "weather in "
          || starts_with normalized "what's the weather")

  abbrev pub judge_value : SuperegoL2Mode → Value → SuperegoResult
  judge_value mode value =
      let code = or_text "" (json.get_text "code" value) in
      if or_text "" (json.get_text "verdict" value) == "DENY"
        && any (λ c. c == code) allowlist_codes
      then denial mode code
      else SuperegoResult.allow

  -- What is not an answer in the form that is asked for lets the message through.
  unfoldable pub judge_answer : SuperegoL2Mode → Result CompletionResponse → SuperegoResult
  unfolding trim
  judge_answer mode (err e) = SuperegoResult.allow
  judge_answer mode (ok response) = elim (json.parse (trim response.content)) [
    | none ↦ SuperegoResult.allow
    | some value ↦ judge_value mode value
  ]

  module _ {W : Type 0} where
    abbrev pub ask_superego :
        SuperegoL2Mode → Option (LlmProvider Value W) → String → W → SuperegoResult × W
    ask_superego mode none message w = (SuperegoResult.allow, w)
    ask_superego mode (some superego) message w =
        let (answer, w') = superego.complete (classifier_request message) w in
        (judge_answer mode answer, w')

    -- The second layer, which is switched off or skips a question about the weather.
    abbrev pub second_layer :
        SuperegoL2Mode → Option (LlmProvider Value W) → String → W → SuperegoResult × W
    second_layer SuperegoL2Mode.off superego message w = (SuperegoResult.allow, w)
    second_layer mode superego message w =
        if is_weather_prompt message
        then (SuperegoResult.allow, w)
        else ask_superego mode superego message w

    unfoldable pub superego_check : IdEgoRouter Value W → String → W → SuperegoResult × W
    unfolding is_weather_prompt judge_answer
    superego_check router message w =
        let verdict = check_user_message u message in
        if not verdict.allowed
        then (
          SuperegoResult.deny verdict.reason_code
              (or_text "Blocked by safety check" verdict.reason_text),
          w,
        )
        else second_layer router.superego_mode router.superego message w

    unfoldable pub run_superego_precheck :
        IdEgoRouter Value W → List Message → W → Option CompletionResponse × W
    unfolding superego_check last_user_message
    run_superego_precheck router messages w =
        let message = last_user_message messages in
        if empty_text message then (none, w) else denied (superego_check router message w)

    unfoldable pub classify : IdEgoRouter Value W → String → W → Result RouteDecision × W
    unfolding decision_of
    classify router user_message w =
        and_then (router.id.complete (simple (new "user" (routing_prompt user_message) ∷ [])) w)
          (λ response w'. (ok (decision_of upper response), w'))

    unfoldable pub route_id_primary :
        IdEgoRouter Value W → List Message → W → Result CompletionResponse × W
    unfolding classify last_content
    route_id_primary router messages w =
        and_then (classify router (last_content messages) w)
          (λ decision. (provider_for router decision).complete (simple messages))

    abbrev pub route_by :
        RoutingMode → IdEgoRouter Value W → List Message → W → Result CompletionResponse × W
    route_by RoutingMode.id_primary = route_id_primary
    route_by RoutingMode.ego_primary = route_ego_primary

    unfoldable pub route : IdEgoRouter Value W → List Message → W → Result CompletionResponse × W
    unfolding run_superego_precheck route_id_primary route_ego_primary
    route router messages w =
        unless_denied (run_superego_precheck router messages w)
          (route_by router.mode router messages)

    unfoldable pub route_with_tools :
        IdEgoRouter Value W
        → List Message
        → List (ToolDefinition Value)
        → W
        → Result CompletionResponse × W
    unfolding run_superego_precheck
    route_with_tools router messages tools w =
        unless_denied (run_superego_precheck router messages w)
          (ego_then_id router (record { messages = messages; tools = some tools }))

    abbrev pub stream_by : RoutingMode → IdEgoRouter Value W → List Message → W → Streamed × W
    stream_by RoutingMode.ego_primary router messages w =
        (ego_or_id router).stream (simple messages) w
    stream_by RoutingMode.id_primary router messages w =
        stream_decided router messages (classify router (last_content messages) w)

    unfoldable pub route_stream : IdEgoRouter Value W → List Message → W → Streamed × W
    unfolding run_superego_precheck classify last_content
    route_stream router messages w =
        unless_denied_stream (run_superego_precheck router messages w)
          (stream_by router.mode router messages)

    unfoldable pub route_stream_with_tools :
        IdEgoRouter Value W → List Message → List (ToolDefinition Value) → W → Streamed × W
    unfolding run_superego_precheck
    route_stream_with_tools router messages tools w =
        unless_denied_stream (run_superego_precheck router messages w)
          (stream_tools router (record { messages = messages; tools = some tools }))
