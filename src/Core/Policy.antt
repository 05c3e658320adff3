-- ===== src/Core/Policy.antt =====
-- crates/orion-core/src/policy.rs: what a turn may do, and the gate on one tool request. `as_text` is
-- the JSON library's look-up of a text under a key of an object.
pub mod Gate
use orion_dock.Prelude.{
  String, Bool, true, false, not, ◌&&◌, ◌||◌, Option, none, some, if◌then◌else◌, ◌==◌,
}
use orion_dock.Core.Superego.{Unicode, SuperegoVerdict}
use orion_dock.Core.Superego.Queries.{check_search_query}

pub record CapabilityEnvelope : Type 0 where
  pub allow_web : Bool
  pub allow_toolbox_exec : Bool
  pub allow_file_write : Bool
  pub require_confirmation : Bool
  pub advisory_code : Option String

pub record CapabilityGateResult : Type 0 where
  pub allowed : Bool
  pub reason_code : Option String
  pub reason_text : Option String
  pub require_confirmation : Bool

abbrev pub is_given : Option String → Bool
is_given none = false
is_given (some c) = true

unfoldable pub evaluate_user_message_for_capabilities : Option String → CapabilityEnvelope
evaluate_user_message_for_capabilities advisory_code = record {
  allow_web = true;
  allow_toolbox_exec = not (is_given advisory_code);
  allow_file_write = not (is_given advisory_code);
  require_confirmation = is_given advisory_code;
  advisory_code = advisory_code;
}

unfoldable pub deny : String → String → CapabilityGateResult
deny code text = record {
  allowed = false;
  reason_code = some code;
  reason_text = some text;
  require_confirmation = false;
}

abbrev pub web_restricted : CapabilityGateResult
web_restricted = deny "PII_DOXXING" "Web capabilities are restricted for this request"

abbrev pub exec_restricted : CapabilityGateResult
exec_restricted = deny "CAPABILITY_RESTRICTED" "Execution tools are restricted for this request"

abbrev pub write_restricted : CapabilityGateResult
write_restricted = deny "CAPABILITY_RESTRICTED" "File write tools are restricted for this request"

abbrev pub by_verdict : SuperegoVerdict → CapabilityGateResult
by_verdict v = record {
  allowed = false;
  reason_code = v.reason_code;
  reason_text = v.reason_text;
  require_confirmation = false;
}

abbrev pub is_web : String → Bool
is_web tool = tool == "web_search" || tool == "perplexity_search" || tool == "web_browse"

abbrev pub is_exec : String → Bool
is_exec tool = tool == "toolbox_exec" || tool == "shell_execute"

abbrev pub needs_confirmation : String → Bool
needs_confirmation tool =
    tool == "toolbox_exec"
    || tool == "shell_execute"
    || tool == "file_write"
    || tool == "send_email"

module _ {Value : Type 0} (u : Unicode) (as_text : String → Value → Option String) where
  unfoldable pub extract_search_like_query : Value → Option String
  extract_search_like_query args = elim (as_text "query" args) [
    | some q ↦ some q
    | none ↦ as_text "url" args
  ]

  -- The verdict on the query of a web request, if there is one that denies it.
  abbrev pub denied_query : Option String → Option SuperegoVerdict
  denied_query none = none
  denied_query (some q) = let v = check_search_query u q in if v.allowed then none else some v

  unfoldable pub granted : String → CapabilityEnvelope → CapabilityGateResult
  granted tool envelope = record {
    allowed = true;
    reason_code = none;
    reason_text = none;
    require_confirmation = envelope.require_confirmation && needs_confirmation tool;
  }

  unfoldable pub evaluate_tool_request : String → Value → CapabilityEnvelope → CapabilityGateResult
  unfolding deny granted extract_search_like_query check_search_query
  evaluate_tool_request tool args envelope =
      if not envelope.allow_web && is_web tool
      then web_restricted
      else if not envelope.allow_toolbox_exec && is_exec tool
      then exec_restricted
      else if not envelope.allow_file_write && tool == "file_write"
      then write_restricted
      else elim (if is_web tool then denied_query (extract_search_like_query args) else none) [
        | some v ↦ by_verdict v
        | none ↦ granted tool envelope
      ]
