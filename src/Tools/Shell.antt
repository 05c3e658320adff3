-- ===== src/Tools/Shell.antt =====
-- skills/skill-shell/src/lib.rs: one tool that runs a command of the shell. `none` stands for a panic
-- of `String::truncate`. `lower` is the standard library's `to_lowercase`.
pub mod Safety
use Prim.Native.String.{len, slice}
use mathlib.Core.Option
use text.Mathlib.Text.{is_char_boundary}
use orion_dock.Prelude.{
  ℕ, ◌*◌, min, String, Bool, true, false, not, ◌&&◌, ◌||◌, Option, none, some, List, [], ◌∷◌, ltb,
  if◌then◌else◌, find_first, ◌⧺◌, ◌==◌, empty_text, contains_text, starts_with, decimal, concat,
  lookup,
}
use orion_dock.Skills.Failure.{StructuredFailure}
use orion_dock.Skills.Manifest.{SkillManifest}
use orion_dock.Skills.Registry.{SkillError, SkillResult, ok, err, tool_failed}
use orion_dock.Skills.Executor.{ToolOutput, ToolParams}
use orion_dock.Tools.Host.{Io, Json}

abbrev pub max_output_bytes : ℕ
max_output_bytes = 65536

abbrev pub default_timeout_secs : ℕ
default_timeout_secs = 30

abbrev pub blocked_patterns : List String
blocked_patterns =
    "rm -rf /" ∷ "rm -rf /*" ∷ "rm -rf ~" ∷ "mkfs." ∷ "dd if=/dev/zero" ∷ "dd if=/dev/random"
    ∷ ":(){:|:&};:" ∷ "chmod -R 777 /" ∷ "chown -R" ∷ "shutdown" ∷ "reboot" ∷ "poweroff" ∷ "halt"
    ∷ "init 0" ∷ "init 6" ∷ "format c:" ∷ "> /dev/sda" ∷ "mv /* /dev/null" ∷ []

abbrev pub elevated_commands : List String
elevated_commands = "sudo" ∷ "su " ∷ "pkill" ∷ "kill -9" ∷ "killall" ∷ []

pub record ShellSkill (Value : Type 0) : Type 0 where
  pub manifest : SkillManifest Value
  pub max_timeout_secs : ℕ
  pub allow_elevated : Bool

abbrev pub new : {Value : Type 0} → SkillManifest Value → ShellSkill Value
new manifest = record {
  manifest = manifest;
  max_timeout_secs = default_timeout_secs;
  allow_elevated = false;
}

unfoldable pub is_elevated : String → String → Bool
is_elevated lower pattern = starts_with lower pattern || contains_text lower (" " ⧺ pattern)

abbrev pub elevated_reason : (String → String) → Option String → Option String
elevated_reason trim none = none
elevated_reason trim (some pattern) = some (
    concat (
      "Elevated command '"
      ∷ trim pattern
      ∷ "' is not allowed. Enable allow_elevated to permit."
      ∷ []))

abbrev pub blocked_reason : Option String → Option String → Option String
blocked_reason none otherwise = otherwise
blocked_reason (some pattern) otherwise =
    some (concat ("Command blocked: contains dangerous pattern '" ∷ pattern ∷ "'" ∷ []))

-- What a process that ended leaves, decoded from UTF-8 with replacements; no code if a signal ended it.
pub record Output : Type 0 where
  pub stdout : String
  pub stderr : String
  pub success : Bool
  pub code : Option ℕ

-- `sh -c`, in a directory or where the program runs, waited for under a timeout: there is no answer when
-- the time is up. The command is not stopped then.
pub record Host (W : Type 0) : Type 0 where
  pub is_dir : String → W → Bool
  pub output : String → Option String → ℕ → W → Option (Io Output) × W

abbrev pub exit_text : Option ℕ → String
exit_text none = "-1"
exit_text (some code) = decimal code

-- `truncate` and the note behind it, past the limit
unfoldable pub truncated : String → Option String
truncated text =
    if not (ltb max_output_bytes (len text))
    then some text
    else if is_char_boundary text max_output_bytes
    then some (slice text 0 max_output_bytes ⧺ "\n... [output truncated]")
    else none

abbrev pub or_default : Option ℕ → ℕ
or_default none = default_timeout_secs
or_default (some secs) = secs

unfoldable pub effective_timeout : {Value : Type 0} → ShellSkill Value → Option ℕ → ℕ
effective_timeout skill timeout_secs = min (or_default timeout_secs) skill.max_timeout_secs

module _ {Value : Type 0} (lower trim : String → String) where
  -- `check_safety`: the reason of an error
  unfoldable pub check_safety : ShellSkill Value → String → Option String
  unfolding contains_text is_elevated
  check_safety skill command =
      blocked_reason (find_first (contains_text (lower command)) blocked_patterns) (
        if skill.allow_elevated
        then none
        else elevated_reason trim (find_first (is_elevated (lower command)) elevated_commands))

module _ {Value W : Type 0} (json : Json Value) (minus_one : Value) (host : Host W)
    (lower trim : String → String) where
  abbrev pub structured_error : String → StructuredFailure → ToolOutput Value
  structured_error message failure = record {
    success = false;
    payload = none;
    error = some message;
    structured_failure = some failure;
    metadata = json.no_metadata;
  }

  abbrev pub formatted : Output → String → String → String
  formatted o stdout stderr =
      if o.success
      then (if empty_text stdout
          then concat ("Command completed successfully (exit code " ∷ exit_text o.code ∷ ")" ∷ [])
          else stdout)
      else concat (
          "Command failed (exit code "
          ∷ exit_text o.code
          ∷ ")"
          ∷ (if empty_text stderr then "" else "\nStderr: " ⧺ stderr)
          ∷ (if empty_text stdout then "" else "\nStdout: " ⧺ stdout)
          ∷ [])

  abbrev pub exit_value : Option ℕ → Value
  exit_value none = minus_one
  exit_value (some code) = json.number code

  abbrev pub finished : Output → String → String → ToolOutput Value
  finished o stdout stderr = record {
    success = true;
    payload = some (
        json.object (
          ("formatted", json.text (formatted o stdout stderr))
          ∷ ("exit_code", exit_value o.code)
          ∷ ("success", json.boolean o.success)
          ∷ ("stdout", json.text stdout)
          ∷ ("stderr", json.text stderr)
          ∷ ("stdout_truncated", json.boolean (ltb max_output_bytes (len o.stdout)))
          ∷ ("stderr_truncated", json.boolean (ltb max_output_bytes (len o.stderr)))
          ∷ []));
    error = none;
    structured_failure = none;
    metadata = json.no_metadata;
  }

  -- The match on the answer under the timeout
  unfoldable pub report : String → ℕ → Option (Io Output) → Option (ToolOutput Value)
  unfolding truncated
  report command secs none = some (
      structured_error (concat ("Command timed out after " ∷ decimal secs ∷ " seconds" ∷ []))
        (StructuredFailure.timeout (secs * 1000) ("shell: " ⧺ command)))
  report command secs (some (Io.failed e)) = some (
      structured_error ("Failed to execute command: " ⧺ e)
        (StructuredFailure.unknown ("Command execution failed: " ⧺ e)))
  report command secs (some (Io.done o)) = elim (truncated o.stdout) [
    | none ↦ none
    | some stdout ↦ elim (truncated o.stderr) [
      | none ↦ none
      | some stderr ↦ some (finished o stdout stderr)
    ]
  ]

  abbrev pub no_directory : String → ToolOutput Value
  no_directory dir =
      structured_error (concat ("Working directory '" ∷ dir ∷ "' does not exist" ∷ [])) (
        StructuredFailure.resource_not_found ("directory:" ⧺ dir)
          (concat ("Create directory '" ∷ dir ∷ "' first" ∷ []) ∷ []))

  abbrev pub is_missing : Option String → W → Bool
  is_missing none w = false
  is_missing (some dir) w = not (host.is_dir dir w)

  abbrev pub dir_text : Option String → String
  dir_text none = ""
  dir_text (some dir) = dir

  abbrev pub blocked : String → String → ToolOutput Value
  blocked reason command = structured_error reason (
      StructuredFailure.permission_denied command
        ("Commands without dangerous patterns are allowed" ∷ []))

  unfoldable pub run_command :
      ShellSkill Value → String → Option String → Option ℕ → W → Option (ToolOutput Value) × W
  unfolding check_safety effective_timeout report
  run_command skill command working_dir timeout_secs w =
      elim (check_safety lower trim skill command) [
        | some reason ↦ (some (blocked reason command), w)
        | none ↦
            let secs = effective_timeout skill timeout_secs in
            if is_missing working_dir w
            then (some (no_directory (dir_text working_dir)), w)
            else (let (answer, w') = host.output command working_dir secs w in
                (report command secs answer, w'))
      ]

  -- `params.get(key)` for a text and for a number
  abbrev pub param : {A : Type 0} → (Value → Option A) → ToolParams Value → String → Option A
  param read params key = elim (lookup key params.values) [ none ↦ none | some v ↦ read v ]

  abbrev pub run_required :
      ShellSkill Value
      → Option String
      → Option String
      → Option ℕ
      → W
      → Option (SkillResult (ToolOutput Value)) × W
  run_required skill none working_dir timeout_secs w =
      (some (err (tool_failed "Missing required parameter: command")), w)
  run_required skill (some command) working_dir timeout_secs w =
      let (out, w') = run_command skill command working_dir timeout_secs w in
      (Option.map ok out, w')

  unfoldable pub execute_tool :
      ShellSkill Value → String → ToolParams Value → W → Option (SkillResult (ToolOutput Value)) × W
  unfolding run_command lookup
  execute_tool skill tool_name params w =
      if not (tool_name == "run_command")
      then (some (err (tool_failed ("Unknown tool: " ⧺ tool_name))), w)
      else run_required skill (param json.to_string params "command")
          (param json.to_string params "working_directory")
          (param json.to_number params "timeout_secs") w
