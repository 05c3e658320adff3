-- ===== src/Skills/Executor.antt =====
-- crates/orion-skills/src/executor.rs: a tool call through registry, sandbox, limiter and timeout.
-- `Run` gives the parts that are not this crate's code: the skill's own future under tokio's
-- timeout (`none` when the time is up), and serde_json's text of a value and `{"result": text}`.
pub mod Filtered
pub mod Audited
pub mod Guards
use orion_dock.Prelude.{
  ℕ, String, Bool, false, not, Option, none, some, List, [], ◌∷◌, if◌then◌else◌, any, find_first,
  ◌⧺◌, ◌==◌, contains_text, decimal, replace_text, Dict,
}
use orion_dock.Skills.Failure.{StructuredFailure}
use orion_dock.Skills.Manifest.{
  TrustTier, verified, agent_built, untrusted, tier_name, SkillId, NetworkPermission, Permission,
  network, SkillManifest,
}
use orion_dock.Skills.Sandbox.{
  ResourceLimits, default_limits, for_tier, AuditActionKind, network_request, SkillSandbox,
  filter_permissions, check_permission,
}
use orion_dock.Skills.Sandbox as Sandbox
use orion_dock.Skills.Registry.{
  SkillError, tool_failed, permission_denied, SkillResult, ok, err, ToolDescriptor, Skill,
  SkillRegistry, get_skill, ◌>>=◌, ◌>>◌,
}

pub record ToolOutput (Value : Type 0) : Type 0 where
  pub success : Bool
  pub payload : Option Value  -- the field `data`
  pub error : Option String
  pub structured_failure : Option StructuredFailure
  pub metadata : Value

pub record ToolParams (Value : Type 0) : Type 0 where
  pub values : Dict Value

pub record ExecutionContext : Type 0 where
  pub request_id : String
  pub user_id : Option String

pub record Run (Value : Type 0) : Type 0 where
  pub timeout :
      Skill Value
      → ℕ
      → String
      → ToolParams Value
      → ExecutionContext
      → Option (SkillResult (ToolOutput Value))
  pub to_text : Value → String
  pub result_object : String → Value

-- `permits` and `closed` are the semaphore's.
pub record SkillExecutor (Value : Type 0) : Type 0 where
  pub registry : SkillRegistry Value
  pub permits : ℕ
  pub closed : Bool
  pub limits_override : Option ResourceLimits

-- The domain that is audited for a network permission.
unfoldable pub audited_domain : NetworkPermission → String
audited_domain NetworkPermission.full = "any"
audited_domain NetworkPermission.local_only = "localhost"
audited_domain (NetworkPermission.domains []) = "unknown"
audited_domain (NetworkPermission.domains (d ∷ _)) = d

-- The first network permission decides; `none` when there is none.
unfoldable pub audit_action_for_tool : List Permission → Option AuditActionKind
unfolding audited_domain
audit_action_for_tool [] = none
audit_action_for_tool (network np ∷ _) = some (network_request (audited_domain np))
audit_action_for_tool (_ ∷ ps) = audit_action_for_tool ps

abbrev pub denial : String → TrustTier → SkillError
denial tool_name tier = permission_denied (
    "Tool "
    ⧺ (tool_name ⧺ (" requires permission that is not granted for " ⧺ (tier_name tier ⧺ " skill"))))

-- The audited action against a fresh sandbox of the skill's filtered permissions.
unfoldable pub gate :
    String → TrustTier → SkillSandbox → Option AuditActionKind → SkillResult (Unit {0})
gate tool_name tier sandbox none = ok tt
gate tool_name tier sandbox (some action) =
    if (check_permission sandbox action).1 then ok tt else err (denial tool_name tier)

module _ {Value : Type 0} where
  unfoldable pub new : SkillRegistry Value → SkillExecutor Value
  new registry = record {
    registry = registry;
    permits = default_limits.max_concurrency;
    closed = false;
    limits_override = none;
  }

  unfoldable pub with_limits : SkillRegistry Value → ResourceLimits → SkillExecutor Value
  with_limits registry limits = record {
    registry = registry;
    permits = limits.max_concurrency;
    closed = false;
    limits_override = some limits;
  }

  unfoldable pub find_tool : Skill Value → String → Option (ToolDescriptor Value)
  find_tool skill tool_name = find_first (λ t. t.name == tool_name) skill.tools

  abbrev flag : (ToolDescriptor Value → Bool) → Option (ToolDescriptor Value) → Bool
  flag f none = false
  flag f (some t) = f t

  abbrev tool_flag : (ToolDescriptor Value → Bool) → SkillRegistry Value → SkillId → String → Bool
  tool_flag f registry skill_id tool_name = elim (get_skill registry skill_id) [
    | ok found ↦ flag f (find_tool found.0 tool_name)
    | err e ↦ false
  ]

  unfoldable pub requires_confirmation : SkillExecutor Value → SkillId → String → Bool
  requires_confirmation x = tool_flag (λ t. t.requires_confirmation) x.registry

  unfoldable pub is_autonomous : SkillExecutor Value → SkillId → String → Bool
  is_autonomous x = tool_flag (λ t. t.autonomous) x.registry

  -- The explicit override, or else the limits of the tier.
  abbrev pub effective_limits : SkillExecutor Value → TrustTier → ResourceLimits
  effective_limits x tier = elim x.limits_override [ none ↦ for_tier tier | some l ↦ l ]

  abbrev known_tool : Skill Value → String → SkillResult (ToolDescriptor Value)
  known_tool skill tool_name = elim (find_tool skill tool_name) [
    | none ↦ err (tool_failed ("Unknown tool: " ⧺ tool_name))
    | some t ↦ ok t
  ]

  abbrev acquire : SkillExecutor Value → SkillResult (Unit {0})
  acquire x = if x.closed then err (tool_failed "concurrency limiter closed") else ok tt

  unfoldable pub within_timeout :
      Run Value
      → Skill Value
      → ℕ
      → String
      → ToolParams Value
      → ExecutionContext
      → SkillResult (ToolOutput Value)
  within_timeout run skill timeout_ms tool_name params context =
      elim (run.timeout skill timeout_ms tool_name params context) [
        | some result ↦ result
        | none ↦ err (
            tool_failed
              ("Tool " ⧺ (tool_name ⧺ (" exceeded timeout (" ⧺ (decimal timeout_ms ⧺ " ms)")))))
      ]

  -- An untrusted skill's output loses every `tool_request`.
  unfoldable pub sanitize : Run Value → TrustTier → ToolOutput Value → ToolOutput Value
  unfolding contains_text replace_text
  sanitize run untrusted output = elim output.payload [
    | none ↦ output
    | some value ↦
        if contains_text (run.to_text value) "tool_request"
        then record output {
          payload =
              some
                (run.result_object (replace_text "tool_request" "[filtered]" (run.to_text value)));
        }
        else output
  ]
  sanitize run _ output = output

  unfoldable pub execute :
      Run Value
      → String
      → SkillExecutor Value
      → SkillId
      → String
      → ToolParams Value
      → SkillResult (ToolOutput Value)
  execute run request_id x skill_id tool_name params = do
    found ← get_skill x.registry skill_id
    tool ← known_tool found.0 tool_name
    let limits = effective_limits x found.2
    let sandbox = Sandbox.new found.1.id (filter_permissions found.1.permissions found.2) limits
    gate tool_name found.2 sandbox (audit_action_for_tool tool.required_permissions)
    acquire x
    output ←
        within_timeout run found.0 limits.max_cpu_ms tool_name params
          (record { request_id = request_id; user_id = none })
    ok (sanitize run found.2 output)
