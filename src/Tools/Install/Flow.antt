-- ===== src/Tools/Install/Flow.antt =====
-- The tools of skills/skill-cooperative-install/src/lib.rs. `Probes` is what the skill asks of the
-- system, of the environment's variables, of the clock and of the sidecar's HTTP interface; `none`
-- stands for a panic of `String::truncate`.
use Prim.Native.String.{len}
use orion_dock.Prelude.{
  not, ℕ, min, String, Bool, true, false, Option, none, some, List, [], ◌∷◌, ◌++◌, map, ltb,
  if◌then◌else◌, length, is_empty, ◌⧺◌, join, decimal, concat, take_chars,
}
use orion_dock.Skills.Registry.{SkillResult, tool_failed}
use orion_dock.Skills.Executor.{ToolOutput}
use orion_dock.Tools.Host.{FilePath, display, Io, Os, Json}
use orion_dock.Tools.Shell.{Output, truncated, max_output_bytes, exit_text}
use orion_dock.Tools.Install.{
  Ascii, Checked, default_install_timeout_secs, ScriptPlatform, as_str, extension,
  EnvironmentSnapshot, ScriptStepInput, CooperativeInstallSkill, validate_package_name,
  select_runtime_manager, default_host_manager, build_direct_install_command, toolbox_command,
  sanitize_name, normalize_package_manager, from_requested,
}
use orion_dock.Tools.Install.Steps.{build_install_script, build_mentor_instructions}

pub record ToolboxExecResponse : Type 0 where
  pub success : Bool
  pub exit_code : String  -- the number's text
  pub stdout : String
  pub stderr : String

pub record CommandExecution : Type 0 where
  pub command : String
  pub success : Bool
  pub exit_code : Option ℕ  -- `none` is -1
  pub stdout : String
  pub stderr : String
  pub stdout_truncated : Bool
  pub stderr_truncated : Bool

-- `shell` waits for a command for so many seconds; a command that takes longer is not stopped.
pub record Probes (W : Type 0) : Type 0 where
  pub snapshot : W → EnvironmentSnapshot × W
  pub shell : String → ℕ → W → Option (Io Output) × W
  pub exec : String → String → W → Io ToolboxExecResponse × W
  pub toolbox_url : W → Option String
  pub host_os : W → String
  pub scripts_root : W → FilePath
  pub timestamp : W → String
  pub now : W → String

-- What is used of serde_json beyond `Json`.
pub record Decoder (Value : Type 0) : Type 0 where
  pub null : Value
  pub minus_one : Value
  pub to_texts : Value → Option (List String)
  pub to_steps : Value → Option (List ScriptStepInput)
  pub to_bool : Value → Option Bool

-- What became of the first attempt: an answer, or the reason for a script.
pub data Attempt (Value : Type 0) : Type 0 where
  answered : ToolOutput Value → Attempt Value
  fallback :
      (reason : String)
      → (manager : Option String) → (execution : Option CommandExecution) → Attempt Value

abbrev pub file_name : Ascii → String → String → ScriptPlatform → String
file_name ascii stamp base_name platform =
    concat (stamp ∷ "-" ∷ sanitize_name ascii base_name ∷ "." ∷ extension platform ∷ [])

-- Each name in its turn, up to the first that is invalid.
unfoldable pub validate_packages : List String → Checked (List String)
unfolding validate_package_name
validate_packages [] = Checked.ok []
validate_packages (name ∷ names) =
    let rest = validate_packages names in
    elim (validate_package_name name) [
      | Checked.err e ↦ Checked.err ("Invalid package: " ⧺ e)
      | Checked.ok pkg ↦ elim rest [
        | Checked.err e ↦ Checked.err e
        | Checked.ok pkgs ↦ Checked.ok (pkg ∷ pkgs)
      ]
    ]

abbrev pub or_else : {A : Type 0} → A → Option A → A
or_else default none = default
or_else default (some a) = a

abbrev pub Run : Type 0 → Type 0 → Type 0
Run W A = W → Option (SkillResult A) × W

abbrev pub and_then :
    {W A B : Type 0} → Option (SkillResult A) × W → (A → Run W B) → Option (SkillResult B) × W
and_then (some (SkillResult.ok a), w) k = k a w
and_then (some (SkillResult.err e), w) k = (some (SkillResult.err e), w)
and_then (none, w) k = (none, w)

infixl 5 ◌>>=◌
abbrev pub ◌>>=◌ : {W A B : Type 0} → Run W A → (A → Run W B) → Run W B
(m >>= k) w = and_then (m w) k

abbrev pub pure : {W A : Type 0} → A → Run W A
pure a w = (some (SkillResult.ok a), w)

abbrev pub fail : {W A : Type 0} → String → Run W A
fail message w = (some (SkillResult.err (tool_failed message)), w)

abbrev pub ask : {W A : Type 0} → (W → A) → Run W A
ask f w = (some (SkillResult.ok (f w)), w)

abbrev pub act : {W A : Type 0} → (W → A × W) → Run W A
act f w = let (a, w') = f w in (some (SkillResult.ok a), w')

abbrev pub checked : {W A : Type 0} → Checked A → Run W A
checked (Checked.ok a) = pure a
checked (Checked.err e) = fail e

abbrev pub io : {W A : Type 0} → String → Io A → Run W A
io message (Io.done a) = pure a
io message (Io.failed e) = fail (message ⧺ e)

abbrev pub or_panic : {W A : Type 0} → Option A → Run W A
or_panic none w = (none, w)
or_panic (some a) w = (some (SkillResult.ok a), w)

module _ {Value W : Type 0} (json : Json Value) (decoder : Decoder Value) (ascii : Ascii)
    (os : Os W) (probes : Probes W) where
  abbrev pub requested : Option String → Run W (Option String)
  requested none = pure none
  requested (some raw) = do
    manager ← checked (normalize_package_manager ascii raw)
    pure (some manager)

  abbrev pub output : Bool → Option Value → Option String → ToolOutput Value
  output success payload error = record {
    success = success;
    payload = payload;
    error = error;
    structured_failure = none;
    metadata = json.no_metadata;
  }

  abbrev pub succeeded : List (String × Value) → ToolOutput Value
  succeeded fields = output true (some (json.object fields)) none

  abbrev pub error_output : String → Run W (ToolOutput Value)
  error_output message = pure (output false none (some message))

  abbrev pub texts : List String → Value
  texts l = json.array (map json.text l)

  abbrev pub text_or_null : Option String → Value
  text_or_null none = decoder.null
  text_or_null (some s) = json.text s

  abbrev pub snapshot_fields : EnvironmentSnapshot → List (String × Value)
  snapshot_fields env =
      ("is_containerized", json.boolean env.is_containerized)
      ∷ ("os", json.text env.os)
      ∷ ("available_package_managers", texts env.available_package_managers)
      ∷ ("writable_paths", texts env.writable_paths)
      ∷ ("has_network", json.boolean env.has_network)
      ∷ ("host_os_hint", json.text env.host_os_hint)
      ∷ []

  abbrev pub exit_value : Option ℕ → Value
  exit_value none = decoder.minus_one
  exit_value (some code) = json.number code

  abbrev pub execution_value : CommandExecution → Value
  execution_value e = json.object (
      ("command", json.text e.command)
      ∷ ("success", json.boolean e.success)
      ∷ ("exit_code", exit_value e.exit_code)
      ∷ ("stdout", json.text e.stdout)
      ∷ ("stderr", json.text e.stderr)
      ∷ ("stdout_truncated", json.boolean e.stdout_truncated)
      ∷ ("stderr_truncated", json.boolean e.stderr_truncated)
      ∷ [])

  abbrev pub execution_or_null : Option CommandExecution → Value
  execution_or_null none = decoder.null
  execution_or_null (some e) = execution_value e

  -- What `execute_shell_command` makes of the answer under the timeout
  unfoldable pub execution : String → ℕ → Option (Io Output) → Option (Io CommandExecution)
  unfolding truncated
  execution command secs none =
      some (Io.failed (concat ("Direct install timed out after " ∷ decimal secs ∷ " seconds" ∷ [])))
  execution command secs (some (Io.failed e)) = some (Io.failed ("Failed to execute command: " ⧺ e))
  execution command secs (some (Io.done o)) = elim (truncated o.stdout) [
    | none ↦ none
    | some stdout ↦ elim (truncated o.stderr) [
      | none ↦ none
      | some stderr ↦ some (
          Io.done (record {
            command = command;
            success = o.success;
            exit_code = o.code;
            stdout = stdout;
            stderr = stderr;
            stdout_truncated = ltb max_output_bytes (len o.stdout);
            stderr_truncated = ltb max_output_bytes (len o.stderr);
          }))
    ]
  ]

  unfoldable pub execute_shell_command :
      CooperativeInstallSkill Value → String → Run W (Io CommandExecution)
  unfolding execution
  execute_shell_command skill command =
      let secs = min default_install_timeout_secs skill.max_timeout_secs in
      act (probes.shell command secs) >>= λ answer. or_panic (execution command secs answer)

  abbrev pub installed_directly :
      List String → EnvironmentSnapshot → String → CommandExecution → ToolOutput Value
  installed_directly packages env manager e = succeeded (
      (
        "formatted",
        json.text (
            concat (
              "Installed "
              ∷ decimal (length packages)
              ∷ " package(s) directly using "
              ∷ manager
              ∷ "."
              ∷ [])),
      )
      ∷ ("action_taken", json.text "installed_directly")
      ∷ ("packages", texts packages)
      ∷ ("package_manager", json.text manager)
      ∷ ("environment", json.object (snapshot_fields env))
      ∷ ("direct_install", execution_value e)
      ∷ [])

  abbrev pub judge_direct :
      List String → EnvironmentSnapshot → String → Io CommandExecution → Attempt Value
  judge_direct packages env manager (Io.failed e) =
      Attempt.fallback ("Direct install execution failed: " ⧺ e) (some manager) none
  judge_direct packages env manager (Io.done e) =
      if e.success
      then Attempt.answered (installed_directly packages env manager e)
      else Attempt.fallback
          (concat ("Direct install command failed (exit code " ∷ exit_text e.exit_code ∷ ")." ∷ []))
          (some manager) (some e)

  abbrev pub install_directly :
      CooperativeInstallSkill Value
      → List String
      → EnvironmentSnapshot
      → Option String
      → Run W (Attempt Value)
  install_directly skill packages env none = pure (
      Attempt.fallback "No compatible runtime package manager was available for direct install."
        none none)
  install_directly skill packages env (some manager) = do
    command ← checked (build_direct_install_command manager packages)
    answer ← execute_shell_command skill command
    pure (judge_direct packages env manager answer)

  abbrev pub installed_via_toolbox :
      List String → EnvironmentSnapshot → String → String → ToolboxExecResponse → ToolOutput Value
  installed_via_toolbox packages env url manager response = succeeded (
      (
        "formatted",
        json.text (
            concat (
              "Installed "
              ∷ decimal (length packages)
              ∷ " package(s) in the toolbox sidecar using "
              ∷ manager
              ∷ "."
              ∷ [])),
      )
      ∷ ("action_taken", json.text "installed_via_toolbox")
      ∷ ("packages", texts packages)
      ∷ ("package_manager", json.text manager)
      ∷ ("environment", json.object (snapshot_fields env))
      ∷ ("toolbox_url", json.text url)
      ∷ ("toolbox_stdout", json.text response.stdout)
      ∷ ("toolbox_stderr", json.text response.stderr)
      ∷ [])

  abbrev pub judge_toolbox :
      List String → EnvironmentSnapshot → String → String → Io ToolboxExecResponse → Attempt Value
  judge_toolbox packages env url manager (Io.failed e) =
      Attempt.fallback ("Toolbox sidecar unavailable: " ⧺ e) none none
  judge_toolbox packages env url manager (Io.done response) =
      if response.success
      then Attempt.answered (installed_via_toolbox packages env url manager response)
      else Attempt.fallback
          (concat (
            "Toolbox install failed (exit code "
            ∷ response.exit_code
            ∷ "): "
            ∷ take_chars 200 response.stderr
            ∷ []))
          none none

  -- In a container: the sidecar, if a URL for it is set.
  abbrev pub install_beside :
      List String → EnvironmentSnapshot → String → Option String → Run W (Attempt Value)
  install_beside packages env manager none = pure (
      Attempt.fallback
        "Orion is running in a containerized environment and cannot modify the host directly." none
        none)
  install_beside packages env manager (some url) = do
    answer ← act (probes.exec url (toolbox_command manager packages))
    pure (judge_toolbox packages env url manager answer)

  abbrev pub attempt :
      CooperativeInstallSkill Value
      → List String
      → EnvironmentSnapshot
      → Option String
      → Run W (Attempt Value)
  attempt skill packages env manager =
      if not env.is_containerized
      then install_directly skill packages env (select_runtime_manager env manager)
      else (do
        url ← ask probes.toolbox_url
        install_beside packages env (or_else "apt-get" manager) url)

  unfoldable pub persist_script : String → ScriptPlatform → String → Run W FilePath
  persist_script base_name platform content = do
    dir ← ask probes.scripts_root
    made ← act (os.create_dir_all dir)
    done ← io "Failed to create script directory: " made
    stamp ← ask probes.timestamp
    let path = dir ++ (file_name ascii stamp base_name platform ∷ [])
    answer ← act (os.write path content)
    written ← io "Failed to write script file: " answer
    pure path

  abbrev pub script_for_mentor :
      List String
      → EnvironmentSnapshot
      → ScriptPlatform
      → Option String
      → String
      → Option String
      → Option CommandExecution
      → Run W (ToolOutput Value)
  script_for_mentor packages env platform requested_manager reason runtime_manager direct = do
    now ← ask probes.now
    let manager = or_else (default_host_manager platform) requested_manager
    let (content, requires_admin) = build_install_script now platform manager packages
    path ← persist_script ("install-" ⧺ join "-" packages) platform content
    pure (
        succeeded (
          (
            "formatted",
            json.text (
                concat (
                  "Generated "
                  ∷ as_str platform
                  ∷ " script for mentor-run install because direct execution was not completed."
                  ∷ [])),
          )
          ∷ ("action_taken", json.text "script_generated")
          ∷ ("reason", json.text reason)
          ∷ ("packages", texts packages)
          ∷ ("runtime_package_manager", text_or_null runtime_manager)
          ∷ ("package_manager", json.text manager)
          ∷ ("host_platform", json.text (as_str platform))
          ∷ ("requires_admin", json.boolean requires_admin)
          ∷ ("script_content", json.text content)
          ∷ ("script_path", json.text (display path))
          ∷ ("instructions", json.text (build_mentor_instructions path platform reason))
          ∷ ("environment", json.object (snapshot_fields env))
          ∷ ("direct_install", execution_or_null direct)
          ∷ []))

  abbrev pub conclude :
      List String
      → EnvironmentSnapshot
      → ScriptPlatform
      → Option String
      → Attempt Value
      → Run W (ToolOutput Value)
  conclude packages env platform manager (Attempt.answered out) = pure out
  conclude packages env platform manager (Attempt.fallback reason runtime_manager direct) =
      script_for_mentor packages env platform manager reason runtime_manager direct

  unfoldable pub cooperative_install :
      CooperativeInstallSkill Value
      → List String
      → Option String
      → Option String
      → Run W (ToolOutput Value)
  unfolding validate_packages normalize_package_manager from_requested select_runtime_manager
      build_direct_install_command execute_shell_command persist_script build_install_script
  cooperative_install skill packages_raw package_manager_raw host_platform_raw =
      if is_empty packages_raw
      then error_output "At least one package is required in 'packages'"
      else (do
        packages ← checked (validate_packages packages_raw)
        manager ← requested package_manager_raw
        host_os ← ask probes.host_os
        platform ← checked (from_requested ascii host_os host_platform_raw)
        env ← act probes.snapshot
        outcome ← attempt skill packages env manager
        conclude packages env platform manager outcome)
