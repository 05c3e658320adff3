-- ===== src/Tools/Install/Tool.antt =====
-- The script that skills/skill-cooperative-install/src/lib.rs writes for steps that are given, and the
-- dispatch of its tools.
use orion_dock.Prelude.{
  String, Bool, true, false, Option, none, some, List, [], ◌∷◌, if◌then◌else◌, is_empty, ◌⧺◌, ◌==◌,
  is_blank, join, concat, lookup,
}
use orion_dock.Skills.Executor.{ToolOutput, ToolParams}
use orion_dock.Tools.Host.{display, Os, Json}
use orion_dock.Tools.Install.{
  Ascii, ScriptPlatform, as_str, ScriptStepInput, CooperativeInstallSkill, validate_safe_command,
  from_requested,
}
use orion_dock.Tools.Install.Scripts.{build_bash_script, build_powershell_script}
use orion_dock.Tools.Install.Steps.{build_mentor_instructions}
use orion_dock.Tools.Install.Flow.{
  Probes, Decoder, Run, ◌>>=◌, pure, fail, ask, act, checked, succeeded, error_output,
  snapshot_fields, persist_script, cooperative_install, or_else,
}

abbrev pub managers_text : List String → String
managers_text managers = if is_empty managers then "none" else join ", " managers

abbrev pub bool_text : Bool → String
bool_text true = "true"
bool_text false = "false"

module _ {Value W : Type 0} (json : Json Value) (decoder : Decoder Value) (ascii : Ascii)
    (os : Os W) (probes : Probes W) where
  -- The check of the steps in their order, before what follows
  abbrev pub with_safe_steps :
      List ScriptStepInput → Run W (ToolOutput Value) → Run W (ToolOutput Value)
  with_safe_steps [] k = k
  with_safe_steps (step ∷ steps) k =
      let rest = with_safe_steps steps k in
      if is_blank step.command
      then error_output json decoder ascii os probes "Each step.command must be non-empty"
      else if is_blank step.explanation
      then error_output json decoder ascii os probes "Each step.explanation must be non-empty"
      else (do safe ← checked (validate_safe_command ascii step.command); rest)

  abbrev pub with_safe_checks : List String → Run W (ToolOutput Value) → Run W (ToolOutput Value)
  with_safe_checks [] k = k
  with_safe_checks (check ∷ checks) k = do
    safe ← checked (validate_safe_command ascii check)
    with_safe_checks checks k

  abbrev pub script_on :
      ScriptPlatform → String → String → List ScriptStepInput → Bool → List String → String
  script_on ScriptPlatform.bash = build_bash_script
  script_on ScriptPlatform.powershell = build_powershell_script

  abbrev pub write_script :
      String → List ScriptStepInput → Option String → Bool → List String → Run W (ToolOutput Value)
  write_script description steps platform_raw requires_admin checks = do
    host_os ← ask probes.host_os
    platform ← checked (from_requested ascii host_os platform_raw)
    now ← ask probes.now
    let content = script_on platform now description steps requires_admin checks
    path ← persist_script json decoder ascii os probes description platform content
    pure (
        succeeded json decoder ascii os probes (
          (
            "formatted",
            json.text (
                concat
                  ("Generated " ∷ as_str platform ∷ " host script for mentor execution." ∷ [])),
          )
          ∷ ("action_taken", json.text "script_generated")
          ∷ ("description", json.text description)
          ∷ ("host_platform", json.text (as_str platform))
          ∷ ("requires_admin", json.boolean requires_admin)
          ∷ ("script_content", json.text content)
          ∷ ("script_path", json.text (display path))
          ∷ (
            "instructions",
            json.text (
                build_mentor_instructions path platform
                  "Host-level changes require mentor execution"),
          )
          ∷ []))

  unfoldable pub generate_host_script :
      String → List ScriptStepInput → Option String → Bool → List String → Run W (ToolOutput Value)
  unfolding is_blank validate_safe_command from_requested persist_script build_bash_script
      build_powershell_script build_mentor_instructions
  generate_host_script description steps platform_raw requires_admin checks =
      if is_blank description
      then error_output json decoder ascii os probes "description must not be empty"
      else if is_empty steps
      then error_output json decoder ascii os probes "steps must include at least one entry"
      else with_safe_steps steps (
          with_safe_checks checks
            (write_script description steps platform_raw requires_admin checks))

  abbrev pub detect_environment : Run W (ToolOutput Value)
  detect_environment = do
    env ← act probes.snapshot
    pure (
        succeeded json decoder ascii os probes (
          (
            "formatted",
            json.text (
                concat (
                  "Runtime OS: "
                  ∷ env.os
                  ∷ "; containerized: "
                  ∷ bool_text env.is_containerized
                  ∷ "; package managers: "
                  ∷ managers_text env.available_package_managers
                  ∷ "."
                  ∷ [])),
          )
          ∷ snapshot_fields json decoder ascii os probes env))

  -- `params.get(key)`, and with an error if there is none
  abbrev pub param : {A : Type 0} → (Value → Option A) → ToolParams Value → String → Option A
  param read params key = elim (lookup key params.values) [ none ↦ none | some v ↦ read v ]

  abbrev pub with_required :
      {A : Type 0} → String → Option A → (A → Run W (ToolOutput Value)) → Run W (ToolOutput Value)
  with_required key none k = fail ("Missing required parameter: " ⧺ key)
  with_required key (some a) k = k a

  unfoldable pub execute_tool :
      CooperativeInstallSkill Value → String → ToolParams Value → Run W (ToolOutput Value)
  unfolding cooperative_install generate_host_script lookup
  execute_tool skill tool_name params =
      if tool_name == "detect_environment"
      then detect_environment
      else if tool_name == "cooperative_install"
      then with_required "packages" (param decoder.to_texts params "packages") (λ packages.
        cooperative_install json decoder ascii os probes skill packages
          (param json.to_string params "package_manager")
          (param json.to_string params "host_platform"))
      else if tool_name == "generate_host_script"
      then with_required "description" (param json.to_string params "description") (λ description.
        with_required "steps" (param decoder.to_steps params "steps") (λ steps.
          generate_host_script description steps (param json.to_string params "platform")
            (or_else false (param decoder.to_bool params "requires_admin"))
            (or_else [] (param decoder.to_texts params "idempotent_checks"))))
      else fail ("Unknown tool: " ⧺ tool_name)
