-- ===== src/Tools/Toolbox.antt =====
-- skills/skill-docker-exec/src/lib.rs: commands and installations in the container of the toolbox,
-- over HTTP. The HTTP client, the decoders of its replies and the lower case of the standard library
-- are parameters.
pub mod Calls
pub mod Safety
use orion_dock.Prelude.{
  ℕ, suc, String, Bool, true, false, not, Option, none, some, List, [], ◌∷◌, if◌then◌else◌,
  is_empty, find_first, ◌⧺◌, ◌==◌, ◌||◌, empty_text, contains_text, decimal, join, concat, trim,
  lookup,
}
use orion_dock.Skills.Manifest.{SkillManifest}
use orion_dock.Skills.Registry.{SkillError, SkillResult, ok, err, tool_failed}
use orion_dock.Skills.Executor.{ToolOutput, ToolParams}
use orion_dock.Tools.Host.{Io, Json}
use orion_dock.Tools.Shell.{is_elevated, blocked_reason}
use orion_dock.Tools.Install.{is_one_of, validate_package_chars}

-- An `i32`
pub data ℤ : Type 0 where
  pos negsuc : ℕ → ℤ

abbrev pub show : ℤ → String
show (ℤ.pos n) = decimal n
show (ℤ.negsuc n) = "-" ⧺ decimal (suc n)

abbrev pub default_toolbox_url : String
default_toolbox_url = "http://orion-toolbox:9090"

abbrev pub default_exec_timeout_secs : ℕ
default_exec_timeout_secs = 120

abbrev pub blocked_patterns : List String
blocked_patterns =
    "rm -rf /" ∷ "rm -rf /*" ∷ "rm -rf ~" ∷ "mkfs." ∷ "dd if=/dev/zero" ∷ "dd if=/dev/random"
    ∷ ":(){:|:&};:" ∷ "chmod -R 777 /" ∷ "chown -R" ∷ "shutdown" ∷ "reboot" ∷ "poweroff" ∷ "halt"
    ∷ "init 0" ∷ "init 6" ∷ "format c:" ∷ "> /dev/sda" ∷ "mv /* /dev/null" ∷ []

abbrev pub elevated_commands : List String
elevated_commands = "sudo" ∷ "su " ∷ "pkill" ∷ "kill -9" ∷ "killall" ∷ []

abbrev pub toolbox_package_managers : List String
toolbox_package_managers = "apt-get" ∷ "apt" ∷ "pip" ∷ "pip3" ∷ "npm" ∷ []

pub record ExecResponse : Type 0 where
  pub success : Bool
  pub exit_code : ℤ
  pub stdout : String
  pub stderr : String
  pub stdout_truncated : Bool
  pub stderr_truncated : Bool
  pub blocked : Bool

pub record ToolsResponse : Type 0 where
  pub available_tools : List String
  pub package_managers : List String

pub record DockerExecSkill (Value : Type 0) : Type 0 where
  pub manifest : SkillManifest Value
  pub toolbox_url : String
  pub toolbox_secret : String

abbrev pub or_text : String → Option String → String
or_text otherwise none = otherwise
or_text otherwise (some s) = s

-- The two arguments behind the manifest are the variables TOOLBOX_URL and TOOLBOX_SECRET.
abbrev pub new :
    {Value : Type 0} → SkillManifest Value → Option String → Option String → DockerExecSkill Value
new manifest url secret = record {
  manifest = manifest;
  toolbox_url = or_text default_toolbox_url url;
  toolbox_secret = or_text "" secret;
}

-- A reply: whether its status is a success, the text of the status, and its body if it can be read.
pub record Response : Type 0 where
  pub is_success : Bool
  pub status : String
  pub text : Option String

-- The client, with its bearer token if it has one, over a world `W`.
pub record Http (Value W : Type 0) : Type 0 where
  pub header : String → Io Unit  -- `HeaderValue::from_str`
  pub build : Io Unit
  pub post : Option String → String → Value → W → Io Response × W
  pub get : Option String → String → W → Io Response × W

-- What is used of serde_json beside `Json`
pub record Codec (Value : Type 0) : Type 0 where
  pub integer : ℤ → Value
  pub exec_response : Response → Io ExecResponse
  pub tools_response : Response → Io ToolsResponse
  pub with_fields : List (String × Value) → Value → Value  -- `as_object_mut`, then `insert`
  pub to_texts : Value → Option (List String)  -- `from_value::<Vec<String>>`

-- `to_lowercase` and `to_ascii_lowercase`
pub record Cases : Type 0 where
  pub to_lowercase : String → String
  pub to_ascii_lowercase : String → String

unfoldable pub elevated_reason : Option String → Option String
unfolding trim
elevated_reason none = none
elevated_reason (some pattern) =
    some (concat ("Elevated command '" ∷ trim pattern ∷ "' is not allowed in toolbox" ∷ []))

-- The checks of the packages in their order: the message of the first that fails
unfoldable pub check_packages : List String → Option String
unfolding validate_package_chars trim
check_packages [] = none
check_packages (pkg ∷ packages) =
    let rest = check_packages packages in
    if empty_text (trim pkg)
    then some "Package names cannot be empty"
    else if not (validate_package_chars (trim pkg))
    then some (
        concat (
          "Invalid package name '" ∷ pkg ∷ "'. Allowed chars: letters, numbers, . - _ + : / @"
          ∷ []))
    else rest

unfoldable pub install_command : String → List String → Option String
unfolding join
install_command manager packages =
    let package_list = join " " packages in
    if manager == "apt-get"
    then some ("apt-get update && apt-get install -y " ⧺ package_list)
    else if manager == "apt"
    then some ("apt update && apt install -y " ⧺ package_list)
    else if manager == "pip" || manager == "pip3"
    then some (concat (manager ∷ " install " ∷ package_list ∷ []))
    else if manager == "npm"
    then some ("npm install -g " ⧺ package_list)
    else none

-- The text for what the command printed
unfoldable pub formatted : ExecResponse → String
formatted x =
    if x.success
    then (if empty_text x.stdout
        then concat ("Command completed successfully (exit code " ∷ show x.exit_code ∷ ")" ∷ [])
        else x.stdout)
    else concat (
        "Command failed (exit code "
        ∷ show x.exit_code
        ∷ ")"
        ∷ (if empty_text x.stderr then "" else "\nStderr: " ⧺ x.stderr)
        ∷ (if empty_text x.stdout then "" else "\nStdout: " ⧺ x.stdout)
        ∷ [])

abbrev pub or_none : List String → String
or_none names = if is_empty names then "none" else join ", " names

abbrev pub or_secs : Option ℕ → ℕ
or_secs none = default_exec_timeout_secs
or_secs (some secs) = secs

module _ (cases : Cases) where
  -- The reason of an error
  unfoldable pub check_safety : String → Option String
  unfolding contains_text is_elevated elevated_reason
  check_safety command =
      let lower = cases.to_lowercase command in
      blocked_reason (find_first (contains_text lower) blocked_patterns)
        (elevated_reason (find_first (is_elevated lower) elevated_commands))
