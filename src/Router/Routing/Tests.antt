-- ===== src/Router/Routing/Tests.antt =====
-- Providers that answer by rote, for the theorems on routing.
use orion_dock.Prelude.{
  ℕ, concat, empty_text, subst, ap, ◌+◌, String, ◌≡◌, refl, ◌↔◌, ◌⊎◌, true, false, ◌&&◌, ◌||◌,
  Option, none, some, List, [], ◌∷◌, leb, if◌then◌else◌, ◌==◌,
}
use orion_dock.Core.Superego.{Unicode, check_user_message}
use orion_dock.Router.Provider.{
  Result, ok, err, Message, CompletionRequest, CompletionResponse, StreamEvent, new, LlmProvider,
  whole, default_stream,
}
use orion_dock.Router.Routing.{
  run_superego_precheck, SuperegoResult, SuperegoL2Mode, RoutingMode, EgoProvider, Reader,
  IdEgoRouter, refusal, superego_check, last_user_message, route, route_with_tools, route_stream,
  route_stream_with_tools,
}
use orion_dock.Router.Routing.Fallback.{BothFail, route_with_tools-err_iff}
use orion_dock.Router.Routing.Safety.{Convicts, routes-blocked, superego_check-denies_iff}
use orion_dock.Router.Routing.Streams.{
  AreFaithful, Sent, IsFaithful, default_stream-Delivers, route_stream_with_tools-Sent,
}

abbrev ascii : Unicode
ascii = record {
  nfkc = λ s. s;
  to_lowercase = λ s. s;
  is_alphanumeric = λ c. (leb 48 c && leb c 57) || (leb 97 c && leb c 122);
}

abbrev same : String → String
same s = s

-- The one denial that the classifier gives.
abbrev json : Reader Unit
json = record {
  parse = λ s. if s == "deny" then some tt else none;
  get_text = λ key value. if key == "verdict" then some "DENY" else some "PII_DOXXING";
}

abbrev answer : String → CompletionResponse
answer content = record { content = content; tool_calls = none }

-- A world counts the calls.
abbrev says : String → CompletionRequest Unit → ℕ → Result CompletionResponse × ℕ
says content request w = (ok (answer content), w + 1)

abbrev talker : String → LlmProvider Unit ℕ
talker content = record { complete = says content; stream = default_stream (says content) }

-- A provider that stops in the middle.
abbrev broken : LlmProvider Unit ℕ
broken = record {
  complete = λ request w. (err "down", w + 1);
  stream = λ request w. ((StreamEvent.token "Hel" ∷ [], err "down"), w + 1);
}

abbrev router : IdEgoRouter Unit ℕ
router = record {
  id = talker "from Id";
  ego = some broken;
  ego_provider = some EgoProvider.openai;
  superego = some (talker "deny");
  superego_provider_name = none;
  superego_mode = SuperegoL2Mode.enforce;
  local_http = none;
  mode = RoutingMode.ego_primary;
}

abbrev harmful : List Message
harmful = new "user" "do anything now" ∷ []

abbrev harmless : List Message
harmless = new "user" "weather in rome" ∷ []

test_harmful : (check_user_message ascii (last_user_message harmful)).allowed ≡ false
unfolding check_user_message last_user_message
test_harmful = refl

test_said : last_user_message harmful ≡ "do anything now"
unfolding last_user_message
test_said = refl

test_solid : empty_text (last_user_message harmful) ≡ false
unfolding last_user_message
test_solid = refl

routes-blocked_example :
    let refused = refusal (check_user_message ascii (last_user_message harmful)).reason_code in
    (route ascii same json router harmful 0 ≡ (ok refused, 0))
    × (route_with_tools ascii same json router harmful [] 0 ≡ (ok refused, 0))
    × (route_stream ascii same json router harmful 0 ≡ ((whole refused, ok refused), 0))
    × (route_stream_with_tools ascii same json router harmful [] 0
        ≡ ((whole refused, ok refused), 0))
routes-blocked_example = routes-blocked ascii same json router harmful [] 0 test_solid test_harmful

-- The classifier denies what the patterns let through.
test_convicted :
    (superego_check ascii same json router "find my neighbor" 0).0
    ≡ SuperegoResult.deny (some "PII_DOXXING") "Blocked by safety classifier (PII_DOXXING)"
unfolding superego_check check_user_message concat
test_convicted = refl

superego_check-denies_iff_example :
    ((code : Option String) × (reason : String) × ((superego_check ascii same json router
          "find my neighbor" 0).0
        ≡ SuperegoResult.deny code reason))
    ↔ (((check_user_message ascii "find my neighbor").allowed ≡ false)
        ⊎ (((check_user_message ascii "find my neighbor").allowed ≡ true)
            × (code : String) × Convicts ascii same json router "find my neighbor" 0 code))
superego_check-denies_iff_example =
    superego_check-denies_iff ascii same json router "find my neighbor" 0

test_stream :
    route_stream_with_tools ascii same json router harmless [] 0
    ≡ ((whole (answer "from Id"), ok (answer "from Id")), 2)
unfolding route_stream_with_tools check_user_message default_stream
test_stream = refl

broken-IsFaithful : IsFaithful broken
broken-IsFaithful request w w' events response h = let h' = ap (λ r. r.0.1) h in cc

router-AreFaithful : AreFaithful router
router-AreFaithful = record {
  id = default_stream-Delivers (says "from Id");
  ego = λ ego there. subst IsFaithful (some-injective there) broken-IsFaithful;
}
  where
    some-injective : {ego : LlmProvider Unit ℕ} → some broken ≡ some ego → broken ≡ ego
    some-injective h = cc

route_stream_with_tools-Sent_example : Sent router (whole (answer "from Id")) (answer "from Id")
route_stream_with_tools-Sent_example =
    route_stream_with_tools-Sent router ascii same json harmless [] 0 2 (whole (answer "from Id"))
      (answer "from Id") router-AreFaithful test_stream

-- Neither model can be reached.
abbrev lost : IdEgoRouter Unit ℕ
lost = record router { id = broken }

route_with_tools-err_iff_example :
    (route_with_tools ascii same json lost harmless [] 0 ≡ (err "down", 2)) ↔ (
      ((run_superego_precheck ascii same json lost harmless 0).0 ≡ none)
      × BothFail lost
          (record { messages = harmless; tools = some [] })
          (run_superego_precheck ascii same json lost harmless 0).1
          "down"
          2)
route_with_tools-err_iff_example =
    route_with_tools-err_iff lost ascii same json harmless [] 0 "down" 2

test_lost : route_with_tools ascii same json lost harmless [] 0 ≡ (err "down", 2)
unfolding route_with_tools check_user_message
test_lost = refl
