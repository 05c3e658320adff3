-- ===== src/Skills/Failure.antt =====
-- crates/orion-skills/src/structured_failure.rs: failures as data, and the constraint that each
-- one teaches. `none` as a text stands for a panic of the slice that makes it.
pub mod Keys
use mathlib.Core.Option
use Prim.Native.String.{len}
use text.Mathlib.Text.{get?}
use orion_dock.Prelude.{ℕ, min, String, Option, none, some, List, ◌⧺◌, decimal, head?, join}

pub data StructuredFailure : Type 0 where
  permission_denied : (path : String) (allowed_paths : List String) → StructuredFailure
  resource_not_found : (resource : String) (setup_steps : List String) → StructuredFailure
  connection_failed :
      (host : String) (port : ℕ) (error_detail : String) (alternatives : List (String × ℕ))
      → StructuredFailure
  authentication_failed :
      (service : String) (user_action_required : Option String) → StructuredFailure
  invalid_input : (field reason : String) (suggestion : Option String) → StructuredFailure
  timeout : (elapsed_ms : ℕ) (operation : String) → StructuredFailure
  unknown : (msg : String) → StructuredFailure

pub data Constraint : Type 0 where
  path_blocked : (blocked : String) (use_instead : List String) → Constraint
  host_unreachable : (host : String) (try_instead : Option String) → Constraint
  resource_requires_setup : (resource : String) (steps : List String) → Constraint
  tool_unavailable : (tool reason : String) → Constraint
  authentication_required : (service user_action : String) → Constraint

-- `format!("{}:{}", host, port)`
unfoldable pub endpoint : String → ℕ → String
endpoint host port = host ⧺ (":" ⧺ decimal port)

unfoldable pub kind_key : StructuredFailure → Option String
unfolding endpoint
kind_key (permission_denied path _) = some ("permission_denied:" ⧺ path)
kind_key (resource_not_found resource _) = some ("not_found:" ⧺ resource)
kind_key (connection_failed host port _ _) = some ("conn_failed:" ⧺ endpoint host port)
kind_key (authentication_failed service _) = some ("auth_failed:" ⧺ service)
kind_key (invalid_input field _ _) = some ("invalid_input:" ⧺ field)
kind_key (timeout _ operation) = some ("timeout:" ⧺ operation)
kind_key (unknown msg) = Option.map (λ cut. "unknown:" ⧺ cut) (get? msg 0 (min (len msg) 50))

unfoldable pub to_constraint : StructuredFailure → Option Constraint
unfolding endpoint
to_constraint (permission_denied path allowed_paths) = some (path_blocked path allowed_paths)
to_constraint (connection_failed host port _ alternatives) = some (
    host_unreachable (endpoint host port) (Option.map (λ a. endpoint a.0 a.1) (head? alternatives)))
to_constraint (resource_not_found resource setup_steps) =
    some (resource_requires_setup resource setup_steps)
to_constraint (authentication_failed service user_action_required) =
    Option.map (authentication_required service) user_action_required
to_constraint _ = none

-- The `Display` of a constraint. `debug` is the standard library's `{:?}` of a list of texts.
unfoldable pub constraint_text : (List String → String) → Constraint → String
constraint_text debug (path_blocked blocked use_instead) =
    "PATH BLOCKED: '" ⧺ (blocked ⧺ ("' is not writable. Use instead: " ⧺ debug use_instead))
constraint_text debug (host_unreachable host none) = "HOST UNREACHABLE: '" ⧺ (host ⧺ "'")
constraint_text debug (host_unreachable host (some alt)) =
    "HOST UNREACHABLE: '" ⧺ (host ⧺ ("'" ⧺ (". Try instead: " ⧺ alt)))
constraint_text debug (resource_requires_setup resource steps) =
    "RESOURCE REQUIRES SETUP: '" ⧺ (resource ⧺ ("'. Steps: " ⧺ join "; " steps))
constraint_text debug (tool_unavailable tool reason) =
    "TOOL UNAVAILABLE: '" ⧺ (tool ⧺ ("' — " ⧺ reason))
constraint_text debug (authentication_required service user_action) =
    "AUTH REQUIRED for '" ⧺ (service ⧺ ("': user must " ⧺ user_action))
