-- ===== src/Router/Routing/Safety.antt =====
-- What the check of the last user message in crates/orion-router/src/router.rs stops.
use orion_dock.Prelude.{
  String, ◌≡◌, refl, sym, ap, ◌∙◌, ◌↔◌, ◌⊎◌, inl, inr, true, false, Option, none, some, List, arith,
  Elem, Bool-cases, empty_text, trim,
}
use orion_dock.Core.Superego.{Unicode, check_user_message}
use orion_dock.Router.Provider.{ok, ToolDefinition, Message, CompletionResponse, LlmProvider, whole}
use orion_dock.Router.Routing.{
  SuperegoResult, SuperegoL2Mode, Reader, IdEgoRouter, allowlist_codes, or_text, last_user_message,
  refusal, classifier_request, is_weather_prompt, judge_answer, ask_superego, second_layer,
  superego_check, run_superego_precheck, route, route_with_tools, route_stream,
  route_stream_with_tools, denial,
}
use orion_dock.Router.Routing.Classifier.{judge_value-deny, judge_answer-deny, convicted-deny}

module _ {Value W : Type 0} (u : Unicode) (upper : String → String) (json : Reader Value) where
  precheck-blocked :
      (router : IdEgoRouter Value W) (messages : List Message) (w : W)
      → empty_text (last_user_message messages) ≡ false
      → (check_user_message u (last_user_message messages)).allowed ≡ false
      → run_superego_precheck u upper json router messages w
        ≡ (some (refusal (check_user_message u (last_user_message messages)).reason_code), w)
  unfolding run_superego_precheck superego_check
  precheck-blocked router messages w said blocked = rw (said, blocked) refl

  -- When the patterns deny the last message of the user, every route answers with the refusal, calls no
  -- model, and a stream has the refusal as its only token.
  pub routes-blocked :
      (router : IdEgoRouter Value W) (messages : List Message) (tools : List (ToolDefinition Value))
      (w : W)
      → empty_text (last_user_message messages) ≡ false
      → (check_user_message u (last_user_message messages)).allowed ≡ false
      → let answer = refusal (check_user_message u (last_user_message messages)).reason_code in
        (route u upper json router messages w ≡ (ok answer, w))
        × (route_with_tools u upper json router messages tools w ≡ (ok answer, w))
        × (route_stream u upper json router messages w ≡ ((whole answer, ok answer), w))
        × (route_stream_with_tools u upper json router messages tools w
            ≡ ((whole answer, ok answer), w))
  unfolding route route_with_tools route_stream route_stream_with_tools
  routes-blocked router messages tools w said blocked =
      let stop = precheck-blocked router messages w said blocked in
      (rw stop refl, rw stop refl, rw stop refl, rw stop refl)

  -- The classifier is asked and answers with a denial in the form that it is told to use.
  pub record Convicts (router : IdEgoRouter Value W) (message : String) (w : W) (code : String)
      : Type 0 where
    pub enforced : router.superego_mode ≡ SuperegoL2Mode.enforce
    pub asked : is_weather_prompt u upper json message ≡ false
    pub superego : LlmProvider Value W
    pub configured : router.superego ≡ some superego
    pub response : CompletionResponse
    pub answered : (superego.complete (classifier_request message) w).0 ≡ ok response
    pub value : Value
    pub parsed : json.parse (trim response.content) ≡ some value
    pub verdict : json.get_text "verdict" value ≡ some "DENY"
    pub named : json.get_text "code" value ≡ some code
    pub listed : Elem code allowlist_codes

  ask_superego-deny :
      (mode : SuperegoL2Mode) (superego : Option (LlmProvider Value W)) (message : String) (w : W)
      (code : Option String) (reason : String)
      → (ask_superego u upper json mode superego message w).0 ≡ SuperegoResult.deny code reason
      → (p : LlmProvider Value W) × (superego ≡ some p)
        × (judge_answer u upper json mode (p.complete (classifier_request message) w).0
            ≡ SuperegoResult.deny code reason)
  ask_superego-deny mode none message w code reason h = cc
  ask_superego-deny mode (some p) message w code reason h = (p, refl, h)

  second_layer-ask :
      (mode : SuperegoL2Mode) (superego : Option (LlmProvider Value W)) (message : String) (w : W)
      (code : Option String) (reason : String)
      → (second_layer u upper json mode superego message w).0 ≡ SuperegoResult.deny code reason
      → (is_weather_prompt u upper json message ≡ false)
        × ((ask_superego u upper json mode superego message w).0 ≡ SuperegoResult.deny code reason)
  second_layer-ask SuperegoL2Mode.off superego message w code reason h = cc
  second_layer-ask SuperegoL2Mode.advise superego message w code reason h = ground arith
  second_layer-ask SuperegoL2Mode.enforce superego message w code reason h = ground arith

  passed-check :
      (router : IdEgoRouter Value W) (message : String) (w : W)
      → (check_user_message u message).allowed ≡ true
      → superego_check u upper json router message w
        ≡ second_layer u upper json router.superego_mode router.superego message w
  unfolding superego_check
  passed-check router message w allowed = rw allowed refl

  blocked-check :
      (router : IdEgoRouter Value W) (message : String) (w : W)
      → (check_user_message u message).allowed ≡ false
      → (superego_check u upper json router message w).0
        ≡ SuperegoResult.deny
            (check_user_message u message).reason_code
            (or_text "Blocked by safety check" (check_user_message u message).reason_text)
  unfolding superego_check
  blocked-check router message w blocked = rw blocked refl

  Convicts-denies :
      (router : IdEgoRouter Value W) (message : String) (w : W) (code : String)
      → (check_user_message u message).allowed ≡ true
      → Convicts router message w code
      → (superego_check u upper json router message w).0 ≡ denial SuperegoL2Mode.enforce code
  unfolding superego_check judge_answer
  Convicts-denies router message w code allowed c =
      let judged =
        convicted-deny u upper json SuperegoL2Mode.enforce c.value code c.verdict c.named
          c.listed in
      rw (allowed, c.enforced, c.configured, c.asked, c.answered, judge_answer, c.parsed) judged

  denies-Convicts :
      (router : IdEgoRouter Value W) (message : String) (w : W) (code : Option String)
      (reason : String)
      → (check_user_message u message).allowed ≡ true
      → (superego_check u upper json router message w).0 ≡ SuperegoResult.deny code reason
      → (c : String) × (code ≡ some c) × Convicts router message w c
  denies-Convicts router message w code reason allowed h =
      let (asked, denied) =
        second_layer-ask router.superego_mode router.superego message w code reason
          (sym (ap (λ r. r.0) (passed-check router message w allowed)) ∙ h) in
      let (superego, configured, judged) =
        ask_superego-deny router.superego_mode router.superego message w code reason denied in
      let (response, answered, value, parsed, found) =
        judge_answer-deny u upper json router.superego_mode _ code reason judged in
      let (enforced, c, same, verdict, named, listed) =
        judge_value-deny u upper json router.superego_mode value code reason found in
      (
        c,
        same,
        record {
          enforced = enforced;
          asked = asked;
          superego = superego;
          configured = configured;
          response = response;
          answered = answered;
          value = value;
          parsed = parsed;
          verdict = verdict;
          named = named;
          listed = listed;
        },
      )

  -- The check denies a message exactly when the patterns deny it or, under enforcement, the classifier
  -- convicts it. Any other answer, and a failure, of the classifier lets it through.
  pub superego_check-denies_iff :
      (router : IdEgoRouter Value W) (message : String) (w : W)
      → ((code : Option String) × (reason : String) × ((superego_check u upper json router message
              w).0
            ≡ SuperegoResult.deny code reason))
        ↔ (((check_user_message u message).allowed ≡ false)
            ⊎ (((check_user_message u message).allowed ≡ true)
                × (code : String) × Convicts router message w code))
  superego_check-denies_iff router message w = (
    λ (code, reason, h). elim (Bool-cases (check_user_message u message).allowed) [
      | inr blocked ↦ inl blocked
      | inl allowed ↦
          let (c, same, convicts) = denies-Convicts router message w code reason allowed h in
          inr (allowed, c, convicts)
    ],
    λ e. elim e [
      | inl blocked ↦ (_, _, blocked-check router message w blocked)
      | inr (allowed, c, convicts) ↦ (_, _, Convicts-denies router message w c allowed convicts)
    ],
  )
