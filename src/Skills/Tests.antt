-- ===== src/Skills/Tests.antt =====
-- A skill with its tools, and runs of it, for the theorems on skills.
use orion_dock.Prelude.{
  not_both, min, String, ◌≡◌, refl, ◌↔◌, true, false, Option, none, some, List, [], ◌∷◌, ◌++◌, map,
  Elem, is_char_boundary, lookup,
}
use Prim.Native.String.{len}
use orion_dock.Skills.Manifest.{
  SkillId, SkillManifest, NetworkPermission, FileSystemPermission, MemoryPermission, Permission,
  network, file_system, memory, shell_execute, verified, agent_built, untrusted,
}
use orion_dock.Skills.Failure.{timeout, unknown, kind_key}
use orion_dock.Skills.Failure.Keys.{kind, subject, kind_key-eq_iff, kind_key-panics_iff}
use orion_dock.Skills.Sandbox.{
  new, AuditActionKind, network_request, file_read, file_write, memory_access, SkillSandbox,
  default_limits, for_tier, filter_permissions, check_permission_inner,
}
use orion_dock.Skills.Sandbox.Grants.{Grants, check_permission_inner_iff}
use orion_dock.Skills.Sandbox.Tiers.{
  tier_sandbox, checks, judged, filter_permissions_iff, check_permission_inner-tier_order,
  untrusted_confined, audit_log-checks,
}
use orion_dock.Skills.Registry.{ok, err, Skill, SkillRegistry, ToolDescriptor, register, get_skill}
use orion_dock.Skills.Registry.Laws.{get_skill-register}
use orion_dock.Skills.Executor.{
  Run, SkillExecutor, ToolOutput, ToolParams, execute, find_tool, denial,
}
use orion_dock.Skills.Executor.Audited.{Asks, AsksFirst, Granted}
use orion_dock.Skills.Executor.Guards.{execute-denied}

abbrev asked : List Permission
asked =
    network (NetworkPermission.domains ("example.com" ∷ []))
    ∷ file_system (FileSystemPermission.read ("/data" ∷ []))
    ∷ shell_execute
    ∷ []

abbrev manifest : SkillManifest String
manifest = record {
  id = record { text = "s" };
  name = "S";
  version = "1";
  description = "";
  license = none;
  category = "";
  keywords = [];
  runtime = "Native";
  min_orion_version = "0";
  platforms = [];
  capabilities = [];
  permissions = asked;
  secrets = [];
  config_defaults = λ k. none;
}

abbrev tool : String → String → ToolDescriptor String
tool name domain = record {
  name = name;
  description = "";
  parameters = "";
  returns = "";
  cost_estimate = record { latency_ms = 1; network_bound = true; token_cost = none };
  required_permissions = network (NetworkPermission.domains (domain ∷ [])) ∷ [];
  autonomous = true;
  requires_confirmation = false;
}

abbrev skill : Skill String
skill = record {
  manifest = manifest;
  tools = tool "get" "example.com" ∷ tool "leak" "evil.org" ∷ [];
}

abbrev registry : SkillRegistry String
registry = record {
  skills = ("s", record { skill = skill; manifest = manifest; trust_tier = untrusted }) ∷ [];
  poisoned = false;
  skill_paths = [];
  secrets = none;
}

abbrev executor : SkillExecutor String
executor = record { registry = registry; permits = 10; closed = false; limits_override = none }

abbrev answer : ToolOutput String
answer = record {
  success = true;
  payload = none;
  error = none;
  structured_failure = none;
  metadata = "";
}

abbrev test_runner : Run String
test_runner = record {
  timeout = λ s ms name params context. some (ok answer);
  to_text = λ v. v;
  result_object = λ t. t;
}

abbrev no_params : ToolParams String
no_params = record { values = [] }

abbrev skill_id : SkillId
skill_id = record { text = "s" }

test_found : get_skill registry skill_id ≡ ok (skill, manifest, untrusted)
unfolding get_skill lookup
test_found = refl

test_tool : find_tool skill "leak" ≡ some (tool "leak" "evil.org")
unfolding find_tool
test_tool = refl

abbrev sandbox : SkillSandbox
sandbox = tier_sandbox skill_id asked untrusted (for_tier untrusted)

test_refused : check_permission_inner sandbox (network_request "evil.org") ≡ false
unfolding check_permission_inner new filter_permissions
test_refused = refl

test_no_grant : ¬ Granted asked untrusted "evil.org"
unfolding new
test_no_grant (p, listed, admitted, grants) =
    not_both
      ((check_permission_inner_iff sandbox (network_request "evil.org") refl).1
        (p, (filter_permissions_iff asked untrusted p).1 (listed, admitted), grants))
      test_refused

execute-denied_example :
    execute test_runner "r" executor skill_id "leak" no_params ≡ err (denial "leak" untrusted)
execute-denied_example =
    execute-denied test_runner "r" executor skill_id "leak" no_params "evil.org" test_found
      test_tool (AsksFirst.at_head _ [] (Asks.first_domain "evil.org" [])) test_no_grant

check_permission_inner_iff_example :
    (check_permission_inner sandbox (network_request "api.example.com") ≡ true) ↔ (
      (p : Permission) × Elem p sandbox.granted_permissions
      × Grants (network_request "api.example.com") p)
check_permission_inner_iff_example =
    check_permission_inner_iff sandbox (network_request "api.example.com") refl

check_permission_inner-tier_order_example :
    (check_permission_inner
          (tier_sandbox skill_id asked untrusted default_limits)
          (file_read "/data/x")
        ≡ true
      → check_permission_inner
          (tier_sandbox skill_id asked agent_built default_limits)
          (file_read "/data/x")
        ≡ true)
    × (check_permission_inner
            (tier_sandbox skill_id asked agent_built default_limits)
            (file_read "/data/x")
          ≡ true
        → check_permission_inner
            (tier_sandbox skill_id asked verified default_limits)
            (file_read "/data/x")
          ≡ true)
check_permission_inner-tier_order_example =
    check_permission_inner-tier_order skill_id asked default_limits (file_read "/data/x")

untrusted_confined_example :
    ((path : String)
      → check_permission_inner
          (tier_sandbox skill_id asked untrusted default_limits)
          (file_read path)
        ≡ false)
    × ((path : String)
        → check_permission_inner
            (tier_sandbox skill_id asked untrusted default_limits)
            (file_write path)
          ≡ false)
    × ((ns : Option String)
        → check_permission_inner
            (tier_sandbox skill_id asked untrusted default_limits)
            (memory_access ns)
          ≡ true
        → Elem (memory MemoryPermission.read_only) asked)
untrusted_confined_example = untrusted_confined skill_id asked default_limits

abbrev actions : List AuditActionKind
actions = file_read "/data/x" ∷ network_request "evil.org" ∷ []

audit_log-checks_example :
    (checks sandbox actions).audit_log ≡ sandbox.audit_log ++ map (judged sandbox) actions
audit_log-checks_example = audit_log-checks sandbox actions

test_register :
    get_skill (register registry (record { text = "t" }) skill).0 (record { text = "t" })
    ≡ ok (skill, skill.manifest, untrusted)
test_register = get_skill-register registry (record { text = "t" }) skill refl

abbrev key : String
key = "timeout:read"

test_key : kind_key (timeout 5 "read") ≡ some key
unfolding kind_key
test_key = refl

test_other_key : kind_key (timeout 9 "read") ≡ some key
unfolding kind_key
test_other_key = refl

kind_key-eq_iff_example : (key ≡ key) ↔ (
    (kind (timeout 5 "read") ≡ kind (timeout 9 "read"))
    × (subject (timeout 5 "read") ≡ subject (timeout 9 "read")))
kind_key-eq_iff_example =
    kind_key-eq_iff (timeout 5 "read") (timeout 9 "read") test_key test_other_key

kind_key-panics_iff_example : (kind_key (unknown "it failed") ≡ none) ↔ (
    (msg : String) × (unknown "it failed" ≡ unknown msg)
    × (is_char_boundary msg (min (len msg) 50) ≡ false))
kind_key-panics_iff_example = kind_key-panics_iff (unknown "it failed")
