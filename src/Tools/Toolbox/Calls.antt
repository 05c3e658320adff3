-- ===== src/Tools/Toolbox/Calls.antt =====
-- The requests of skills/skill-docker-exec/src/lib.rs to the sidecar, and the dispatch of its tools.
use orion_dock.Prelude.{
  map, ℕ, String, Bool, true, false, Option, none, some, List, [], ◌∷◌, if◌then◌else◌, is_empty,
  ◌⧺◌, ◌==◌, empty_text, join, concat, lookup,
}
use orion_dock.Skills.Registry.{SkillResult, ok, err, tool_failed}
use orion_dock.Skills.Executor.{ToolOutput, ToolParams}
use orion_dock.Tools.Host.{Io, Json}
use orion_dock.Tools.Install.{is_one_of}
use orion_dock.Tools.Toolbox.{
  ExecResponse, ToolsResponse, DockerExecSkill, or_text, Response, Http, Codec, Cases, or_none,
  or_secs, toolbox_package_managers, check_packages, install_command, formatted, check_safety,
}

module _ {Value W : Type 0} (json : Json Value) (codec : Codec Value) (http : Http Value W)
    (cases : Cases) where
  abbrev pub error_output : String → ToolOutput Value
  error_output message = record {
    success = false;
    payload = none;
    error = some message;
    structured_failure = none;
    metadata = json.no_metadata;
  }

  abbrev pub success_output : Value → ToolOutput Value
  success_output v = record {
    success = true;
    payload = some v;
    error = none;
    structured_failure = none;
    metadata = json.no_metadata;
  }

  -- The end of the building of the client: its token, or the text of the error
  abbrev pub built : Option String → Io Unit → Io (Option String)
  built token (Io.failed e) = Io.failed ("Failed to build HTTP client: " ⧺ e)
  built token (Io.done u) = Io.done token

  abbrev pub with_header : String → Io Unit → Io (Option String)
  with_header secret (Io.failed e) = Io.failed ("Invalid toolbox secret: " ⧺ e)
  with_header secret (Io.done u) = built (some secret) http.build

  unfoldable pub http_client : DockerExecSkill Value → Io (Option String)
  http_client skill =
      if empty_text skill.toolbox_secret
      then built none http.build
      else with_header skill.toolbox_secret (http.header ("Bearer " ⧺ skill.toolbox_secret))

  abbrev pub dir_fields : Option String → List (String × Value)
  dir_fields none = []
  dir_fields (some dir) = ("working_directory", json.text dir) ∷ []

  unfoldable pub exec_body : String → Option String → Option ℕ → Value
  exec_body command working_directory timeout_secs = json.object (
      ("command", json.text command)
      ∷ ("timeout", json.number (or_secs timeout_secs))
      ∷ dir_fields working_directory)

  unfoldable pub exec_value : ExecResponse → Value
  unfolding formatted
  exec_value x = json.object (
      ("formatted", json.text (formatted x))
      ∷ ("exit_code", codec.integer x.exit_code)
      ∷ ("success", json.boolean x.success)
      ∷ ("stdout", json.text x.stdout)
      ∷ ("stderr", json.text x.stderr)
      ∷ ("stdout_truncated", json.boolean x.stdout_truncated)
      ∷ ("stderr_truncated", json.boolean x.stderr_truncated)
      ∷ ("source", json.text "toolbox")
      ∷ [])

  abbrev pub exec_decoded : Io ExecResponse → SkillResult (ToolOutput Value)
  exec_decoded (Io.failed e) = err (tool_failed ("Invalid toolbox response: " ⧺ e))
  exec_decoded (Io.done x) = ok (success_output (exec_value x))

  -- What becomes of the reply to a command
  unfoldable pub exec_reply : Io Response → SkillResult (ToolOutput Value)
  exec_reply (Io.failed e) = err (tool_failed ("Toolbox request failed: " ⧺ e))
  exec_reply (Io.done r) =
      if r.is_success
      then exec_decoded (codec.exec_response r)
      else err (
          tool_failed (
            concat
              ("Toolbox returned HTTP " ∷ r.status ∷ ": " ∷ or_text "unknown error" r.text ∷ [])))

  -- The request, by the client if there is one
  abbrev pub post_exec :
      DockerExecSkill Value
      → String
      → Option String
      → Option ℕ
      → Io (Option String)
      → W
      → SkillResult (ToolOutput Value) × W
  post_exec skill command dir secs (Io.failed e) w = (err (tool_failed e), w)
  post_exec skill command dir secs (Io.done token) w =
      let (reply, w') =
        http.post token (skill.toolbox_url ⧺ "/exec") (exec_body command dir secs) w in
      (exec_reply reply, w')

  -- What follows the safety check
  abbrev pub exec_checked :
      DockerExecSkill Value
      → String
      → Option String
      → Option ℕ
      → Option String
      → W
      → SkillResult (ToolOutput Value) × W
  exec_checked skill command dir secs (some reason) w = (ok (error_output reason), w)
  exec_checked skill command dir secs none w =
      post_exec skill command dir secs (http_client skill) w

  unfoldable pub exec_in_toolbox :
      DockerExecSkill Value
      → String
      → Option String
      → Option ℕ
      → W
      → SkillResult (ToolOutput Value) × W
  exec_in_toolbox skill command working_directory timeout_secs w =
      exec_checked skill command working_directory timeout_secs (check_safety cases command) w

  abbrev pub with_action : List String → String → Option Value → ToolOutput Value → ToolOutput Value
  with_action packages manager none result = result
  with_action packages manager (some v) result = success_output (
      codec.with_fields
        (("action", json.text "toolbox_install")
          ∷ ("packages", json.array (map json.text packages))
          ∷ ("package_manager", json.text manager)
          ∷ [])
        v)

  -- The data of a result, if there are any, with what was installed
  unfoldable pub enriched :
      List String → String → SkillResult (ToolOutput Value) → SkillResult (ToolOutput Value)
  enriched packages manager (err e) = err e
  enriched packages manager (ok result) = ok (with_action packages manager result.payload result)

  abbrev pub unsupported : String → String
  unsupported manager = concat (
      "Unsupported package manager '"
      ∷ manager
      ∷ "'. Supported: "
      ∷ join ", " toolbox_package_managers
      ∷ [])

  abbrev pub run_install :
      DockerExecSkill Value
      → List String
      → String
      → Option String
      → W
      → SkillResult (ToolOutput Value) × W
  run_install skill packages manager none w =
      (ok (error_output (concat ("Unsupported package manager '" ∷ manager ∷ "'" ∷ []))), w)
  run_install skill packages manager (some command) w =
      let (result, w') = exec_in_toolbox skill command none (some 180) w in
      (enriched packages (cases.to_ascii_lowercase manager) result, w')

  -- What follows the check of the package manager, and before it that of the packages
  abbrev pub install_with :
      DockerExecSkill Value → List String → String → Bool → W → SkillResult (ToolOutput Value) × W
  install_with skill packages manager false w = (ok (error_output (unsupported manager)), w)
  install_with skill packages manager true w =
      run_install skill packages manager
        (install_command (cases.to_ascii_lowercase manager) packages) w

  abbrev pub install_checked :
      DockerExecSkill Value
      → List String
      → String
      → Option String
      → W
      → SkillResult (ToolOutput Value) × W
  install_checked skill packages manager (some message) w = (ok (error_output message), w)
  install_checked skill packages manager none w =
      install_with skill packages manager
        (is_one_of (cases.to_ascii_lowercase manager) toolbox_package_managers) w

  unfoldable pub install_in_toolbox :
      DockerExecSkill Value → List String → Option String → W → SkillResult (ToolOutput Value) × W
  install_in_toolbox skill packages package_manager w =
      if is_empty packages
      then (ok (error_output "At least one package is required"), w)
      else install_checked skill packages (or_text "apt-get" package_manager)
          (check_packages packages) w

  abbrev pub is_up : Io Response → Bool
  is_up (Io.failed e) = false
  is_up (Io.done r) = r.is_success

  abbrev pub shown :
      DockerExecSkill Value → String → Bool → List (String × Value) → ToolOutput Value
  shown skill text available fields = success_output (
      json.object (
        ("formatted", json.text text)
        ∷ ("available", json.boolean available)
        ∷ ("toolbox_url", json.text skill.toolbox_url)
        ∷ fields))

  abbrev pub tools_decoded :
      DockerExecSkill Value → Io ToolsResponse → SkillResult (ToolOutput Value)
  tools_decoded skill (Io.failed e) = err (tool_failed ("Invalid tools response: " ⧺ e))
  tools_decoded skill (Io.done tools) = ok (
      shown skill
        (concat (
          "Toolbox available. Tools: "
          ∷ or_none tools.available_tools
          ∷ ". Package managers: "
          ∷ or_none tools.package_managers
          ∷ "."
          ∷ []))
        true
        (("available_tools", json.array (map json.text tools.available_tools))
          ∷ ("package_managers", json.array (map json.text tools.package_managers))
          ∷ []))

  -- What becomes of the reply with the tools
  unfoldable pub tools_reply : DockerExecSkill Value → Io Response → SkillResult (ToolOutput Value)
  tools_reply skill (Io.failed e) = err (tool_failed ("Failed to query toolbox: " ⧺ e))
  tools_reply skill (Io.done r) =
      if r.is_success
      then tools_decoded skill (codec.tools_response r)
      else ok (shown skill "Toolbox is healthy but /tools endpoint failed." true [])

  -- What follows the check of the health
  abbrev pub after_health :
      DockerExecSkill Value → Option String → Bool → W → SkillResult (ToolOutput Value) × W
  after_health skill token false w =
      (ok (shown skill "Toolbox sidecar is not available." false []), w)
  after_health skill token true w =
      let (reply, w') = http.get token (skill.toolbox_url ⧺ "/tools") w in
      (tools_reply skill reply, w')

  abbrev pub ask_status :
      DockerExecSkill Value → Io (Option String) → W → SkillResult (ToolOutput Value) × W
  ask_status skill (Io.failed e) w = (err (tool_failed e), w)
  ask_status skill (Io.done token) w =
      let (health, w') = http.get token (skill.toolbox_url ⧺ "/health") w in
      after_health skill token (is_up health) w'

  unfoldable pub toolbox_status : DockerExecSkill Value → W → SkillResult (ToolOutput Value) × W
  toolbox_status skill w = ask_status skill (http_client skill) w

  -- `params.get(key)`
  abbrev pub param : {A : Type 0} → (Value → Option A) → ToolParams Value → String → Option A
  param read params key = elim (lookup key params.values) [ none ↦ none | some v ↦ read v ]

  abbrev pub exec_tool :
      DockerExecSkill Value
      → Option String
      → Option String
      → Option ℕ
      → W
      → SkillResult (ToolOutput Value) × W
  exec_tool skill none dir secs w = (err (tool_failed "Missing required parameter: command"), w)
  exec_tool skill (some command) dir secs w = exec_in_toolbox skill command dir secs w

  abbrev pub install_tool :
      DockerExecSkill Value
      → Option (List String)
      → Option String
      → W
      → SkillResult (ToolOutput Value) × W
  install_tool skill none manager w = (err (tool_failed "Missing required parameter: packages"), w)
  install_tool skill (some packages) manager w = install_in_toolbox skill packages manager w

  unfoldable pub execute_tool :
      DockerExecSkill Value → String → ToolParams Value → W → SkillResult (ToolOutput Value) × W
  unfolding exec_in_toolbox install_in_toolbox toolbox_status lookup
  execute_tool skill tool_name params w =
      if tool_name == "toolbox_exec"
      then exec_tool skill (param json.to_string params "command")
          (param json.to_string params "working_directory")
          (param json.to_number params "timeout_secs") w
      else if tool_name == "toolbox_install"
      then install_tool skill (param codec.to_texts params "packages")
          (param json.to_string params "package_manager") w
      else if tool_name == "toolbox_status"
      then toolbox_status skill w
      else (err (tool_failed ("Unknown tool: " ⧺ tool_name)), w)
