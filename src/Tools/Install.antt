-- ===== src/Tools/Install.antt =====
-- skills/skill-cooperative-install/src/lib.rs: the names of packages and managers, the commands that
-- install them, and the names of scripts. `Ascii` is the standard library's part.
pub mod Scripts
pub mod Steps
pub mod Flow
pub mod Tool
pub mod Names
pub mod Valid
pub mod Reach
use Prim.Native.Char.{Char, code}
use orion_dock.Prelude.{
  ℕ, String, Bool, true, false, not, ◌&&◌, ◌||◌, Option, none, some, List, [], ◌∷◌, leb, eqb, map,
  if◌then◌else◌, any, find_first, ◌⧺◌, ◌==◌, empty_text, contains_text, join, concat, trim,
}
use orion_dock.Skills.Manifest.{SkillManifest}

pub record Ascii : Type 0 where
  pub to_lowercase : String → String
  pub lower_char : Char → Char

pub data Checked (A : Type 0) : Type 0 where
  ok : A → Checked A
  err : String → Checked A

abbrev pub default_install_timeout_secs : ℕ
default_install_timeout_secs = 120

abbrev pub package_managers : List String
package_managers =
    "apt-get" ∷ "apt" ∷ "dnf" ∷ "yum" ∷ "apk" ∷ "pacman" ∷ "zypper" ∷ "brew" ∷ "winget" ∷ "choco"
    ∷ "scoop" ∷ "pip" ∷ "pip3" ∷ "npm" ∷ "cargo" ∷ []

abbrev pub blocked_script_patterns : List String
blocked_script_patterns =
    "rm -rf /" ∷ "rm -rf /*" ∷ "rm -rf ~" ∷ "mkfs." ∷ "dd if=/dev/zero" ∷ ":(){:|:&};:"
    ∷ "chmod -r 777 /" ∷ "chown -r" ∷ "shutdown" ∷ "reboot" ∷ "poweroff" ∷ "halt" ∷ "format c:"
    ∷ "remove-item -recurse -force c:\\" ∷ []

pub data ScriptPlatform : Type 0 where
  bash powershell : ScriptPlatform

abbrev pub as_str : ScriptPlatform → String
as_str ScriptPlatform.bash = "bash"
as_str ScriptPlatform.powershell = "powershell"

abbrev pub extension : ScriptPlatform → String
extension ScriptPlatform.bash = "sh"
extension ScriptPlatform.powershell = "ps1"

pub record EnvironmentSnapshot : Type 0 where
  pub is_containerized : Bool
  pub os : String
  pub available_package_managers : List String
  pub writable_paths : List String
  pub has_network : Bool
  pub host_os_hint : String

pub record ScriptStepInput : Type 0 where
  pub command : String
  pub explanation : String

pub record CooperativeInstallSkill (Value : Type 0) : Type 0 where
  pub manifest : SkillManifest Value
  pub max_timeout_secs : ℕ

abbrev pub new : {Value : Type 0} → SkillManifest Value → CooperativeInstallSkill Value
new manifest = record { manifest = manifest; max_timeout_secs = 300 }

abbrev pub is_one_of : String → List String → Bool
is_one_of s names = any (λ n. n == s) names

-- The platform for the text of `HOST_OS`
abbrev pub hinted_platform : String → ScriptPlatform
hinted_platform host_os =
    if is_one_of host_os ("linux" ∷ "macos" ∷ "darwin" ∷ [])
    then ScriptPlatform.bash
    else ScriptPlatform.powershell

unfoldable pub validate_package_chars : String → Bool
validate_package_chars String.[] = true
validate_package_chars (String.◌∷◌ c s) =
    let rest = validate_package_chars s in is_package_char (code c) && rest
  where
    is_package_char : ℕ → Bool
    is_package_char c =
        (leb b'0' c && leb c b'9')
        || (leb b'A' c && leb c b'Z')
        || (leb b'a' c && leb c b'z')
        || eqb c b'.'
        || eqb c b'-'
        || eqb c b'_'
        || eqb c b'+'
        || eqb c b':'
        || eqb c b'/'
        || eqb c b'@'

unfoldable pub validate_package_name : String → Checked String
unfolding validate_package_chars trim
validate_package_name name =
    if empty_text (trim name)
    then err "Package names cannot be empty"
    else if not (validate_package_chars (trim name))
    then err (
        concat (
          "Invalid package name '" ∷ name ∷ "'. Allowed chars: letters, numbers, . - _ + : / @"
          ∷ []))
    else ok (trim name)

abbrev pub is_available : EnvironmentSnapshot → String → Bool
is_available env manager = is_one_of manager env.available_package_managers

abbrev pub preference : String → List String
preference os =
    if os == "windows"
    then "winget" ∷ "choco" ∷ "scoop" ∷ "pip" ∷ "npm" ∷ "cargo" ∷ []
    else "apt-get" ∷ "apt" ∷ "dnf" ∷ "yum" ∷ "apk" ∷ "pacman" ∷ "zypper" ∷ "brew" ∷ "pip3" ∷ "pip"
      ∷ "npm" ∷ "cargo" ∷ []

unfoldable pub select_runtime_manager : EnvironmentSnapshot → Option String → Option String
select_runtime_manager env none = find_first (is_available env) (preference env.os)
select_runtime_manager env (some requested) =
    if is_available env requested then some requested else none

abbrev pub default_host_manager : ScriptPlatform → String
default_host_manager ScriptPlatform.bash = "apt-get"
default_host_manager ScriptPlatform.powershell = "winget"

abbrev pub winget_install : String → String
winget_install pkg = concat (
    "winget install --id " ∷ pkg ∷ " --exact --accept-package-agreements --accept-source-agreements"
    ∷ [])

unfoldable pub build_direct_install_command : String → List String → Checked String
unfolding join
build_direct_install_command manager packages =
    let package_list = join " " packages in
    if manager == "apt-get"
    then ok ("apt-get update && apt-get install -y " ⧺ package_list)
    else if manager == "apt"
    then ok ("apt update && apt install -y " ⧺ package_list)
    else if manager == "dnf"
    then ok ("dnf install -y " ⧺ package_list)
    else if manager == "yum"
    then ok ("yum install -y " ⧺ package_list)
    else if manager == "apk"
    then ok ("apk add --no-cache " ⧺ package_list)
    else if manager == "pacman"
    then ok ("pacman -S --noconfirm " ⧺ package_list)
    else if manager == "zypper"
    then ok ("zypper --non-interactive install " ⧺ package_list)
    else if manager == "brew"
    then ok ("brew install " ⧺ package_list)
    else if manager == "choco"
    then ok ("choco install -y " ⧺ package_list)
    else if manager == "scoop"
    then ok ("scoop install " ⧺ package_list)
    else if manager == "pip" || manager == "pip3"
    then ok (concat (manager ∷ " install " ∷ package_list ∷ []))
    else if manager == "npm"
    then ok ("npm install -g " ⧺ package_list)
    else if manager == "cargo"
    then ok ("cargo install " ⧺ package_list)
    else if manager == "winget"
    then ok (join " && " (map winget_install packages))
    else err (concat ("Unsupported package manager '" ∷ manager ∷ "' for direct install" ∷ []))

-- The command for the sidecar: an unknown manager's is that of apt-get.
unfoldable pub toolbox_command : String → List String → String
unfolding join
toolbox_command manager packages =
    let package_list = join " " packages in
    if manager == "apt"
    then "apt update && apt install -y " ⧺ package_list
    else if manager == "pip" || manager == "pip3"
    then concat (manager ∷ " install " ∷ package_list ∷ [])
    else if manager == "npm"
    then "npm install -g " ⧺ package_list
    else "apt-get update && apt-get install -y " ⧺ package_list

abbrev pub is_alphanumeric : ℕ → Bool
is_alphanumeric c =
    (leb b'0' c && leb c b'9') || (leb b'A' c && leb c b'Z') || (leb b'a' c && leb c b'z')

-- `trim_matches('-')`
unfoldable pub drop_dashes : String → String
drop_dashes String.[] = ""
drop_dashes (String.◌∷◌ c s) =
    let rest = drop_dashes s in if eqb (code c) b'-' then rest else String.◌∷◌ c s

unfoldable pub drop_last_dashes : String → String
drop_last_dashes String.[] = ""
drop_last_dashes (String.◌∷◌ c s) =
    let rest = drop_last_dashes s in
    if eqb (code c) b'-' && empty_text rest then "" else String.◌∷◌ c rest

abbrev pub or_script : String → String
or_script cleaned = if empty_text cleaned then "script" else cleaned

module _ (ascii : Ascii) where
  -- What the loop of `sanitize_name` adds, after a dash or not.
  unfoldable pub dashed : Bool → String → String
  dashed previous_dash String.[] = ""
  dashed previous_dash (String.◌∷◌ c s) =
      let after_letter = dashed false s in
      let after_dash = dashed true s in
      if is_alphanumeric (code c)
      then String.◌∷◌ (ascii.lower_char c) after_letter
      else if previous_dash
      then after_dash
      else String.◌∷◌ "-" after_dash

  unfoldable pub sanitize_name : String → String
  unfolding dashed drop_dashes drop_last_dashes
  sanitize_name raw = or_script (drop_last_dashes (drop_dashes (dashed false raw)))

  unfoldable pub normalize_package_manager : String → Checked String
  unfolding trim
  normalize_package_manager raw =
      let normalized = ascii.to_lowercase (trim raw) in
      if empty_text normalized
      then err "package_manager cannot be empty"
      else if is_one_of normalized package_managers
      then ok normalized
      else err (
          concat (
            "Unsupported package_manager '"
            ∷ raw
            ∷ "'. Supported: "
            ∷ join ", " package_managers
            ∷ []))

  unfoldable pub validate_safe_command : String → Checked Unit
  unfolding contains_text
  validate_safe_command command =
      elim (find_first (contains_text (ascii.to_lowercase command)) blocked_script_patterns) [
        | none ↦ ok tt
        | some blocked ↦
            err (concat ("Command contains blocked pattern '" ∷ blocked ∷ "': " ∷ command ∷ []))
      ]

  -- The platform that is asked for, or the one of `HOST_OS`
  abbrev pub named_platform : String → String → Checked ScriptPlatform
  named_platform raw normalized =
      if is_one_of normalized ("bash" ∷ "sh" ∷ "linux" ∷ "macos" ∷ "darwin" ∷ [])
      then ok ScriptPlatform.bash
      else if is_one_of normalized ("powershell" ∷ "pwsh" ∷ "windows" ∷ "ps" ∷ [])
      then ok ScriptPlatform.powershell
      else err (concat ("Unsupported platform '" ∷ raw ∷ "'. Use bash, powershell, or auto." ∷ []))

  unfoldable pub from_requested : String → Option String → Checked ScriptPlatform
  unfolding trim
  from_requested host_os none = ok (hinted_platform (ascii.to_lowercase host_os))
  from_requested host_os (some raw) =
      let normalized = ascii.to_lowercase (trim raw) in
      if empty_text normalized || normalized == "auto"
      then ok (hinted_platform (ascii.to_lowercase host_os))
      else named_platform raw normalized
