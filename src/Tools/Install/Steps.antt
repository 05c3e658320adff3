-- ===== src/Tools/Install/Steps.antt =====
-- The scripts that install packages in skills/skill-cooperative-install/src/lib.rs, and what the mentor
-- is told to do with them. `now` is the time as a text.
use orion_dock.Prelude.{
  String, Bool, ◌||◌, List, [], ◌∷◌, ◌++◌, map, if◌then◌else◌, ◌==◌, join, concat,
}
use orion_dock.Tools.Host.{FilePath, display}
use orion_dock.Tools.Install.{ScriptPlatform, ScriptStepInput, is_one_of}
use orion_dock.Tools.Install.Scripts.{build_bash_script, build_powershell_script}

unfoldable pub manager_requires_admin : String → ScriptPlatform → Bool
manager_requires_admin manager ScriptPlatform.bash =
    is_one_of manager ("apt-get" ∷ "apt" ∷ "dnf" ∷ "yum" ∷ "apk" ∷ "pacman" ∷ "zypper" ∷ [])
manager_requires_admin manager ScriptPlatform.powershell =
    is_one_of manager ("winget" ∷ "choco" ∷ [])

-- The text before and the text behind a package's name, in a check and in a command.
abbrev pub around : String → String → String → String
around before pkg after = concat (before ∷ pkg ∷ after ∷ [])

abbrev pub quiet : String
quiet = "\" >/dev/null 2>&1"

-- The check and the command of a manager
unfoldable pub bash_commands : String → String → String × String
bash_commands manager pkg =
    let plain = around (concat (manager ∷ " install \"" ∷ [])) pkg "\"" in
    let assumed = around (concat (manager ∷ " install -y \"" ∷ [])) pkg "\"" in
    if is_one_of manager ("apt-get" ∷ "apt" ∷ [])
    then (around "dpkg -s \"" pkg quiet, assumed)
    else if is_one_of manager ("dnf" ∷ "yum" ∷ "zypper" ∷ [])
    then (around "rpm -q \"" pkg quiet, assumed)
    else if manager == "apk"
    then (around "apk info -e \"" pkg quiet, around "apk add --no-cache \"" pkg "\"")
    else if manager == "pacman"
    then (around "pacman -Qi \"" pkg quiet, around "pacman -S --noconfirm \"" pkg "\"")
    else if manager == "brew"
    then (around "brew list --versions \"" pkg quiet, plain)
    else if manager == "pip" || manager == "pip3"
    then (around (concat (manager ∷ " show \"" ∷ [])) pkg quiet, plain)
    else if manager == "npm"
    then (
      around "npm list -g \"" pkg "\" --depth=0 >/dev/null 2>&1",
      around "npm install -g \"" pkg "\"",
    )
    else if manager == "cargo"
    then (around "cargo install --list | grep -F '" pkg " v' >/dev/null 2>&1", plain)
    else (around "command -v \"" pkg quiet, plain)

unfoldable pub bash_install_step : String → String → ScriptStepInput
unfolding bash_commands
bash_install_step manager pkg =
    let (check_cmd, install_cmd) = bash_commands manager pkg in
    record {
      command = concat (
          "if " ∷ check_cmd ∷ "; then\n  echo \"[orion] " ∷ pkg ∷ " already installed.\"\nelse\n  "
          ∷ install_cmd ∷ "\nfi\nif ! " ∷ check_cmd
          ∷ "; then\n  echo \"[orion] Verification failed for " ∷ pkg ∷ ".\"\n  exit 1\nfi" ∷ []);
      explanation = concat ("Ensure package '" ∷ pkg ∷ "' is installed" ∷ []);
    }

-- A listing whose text is searched for the name
abbrev pub selecting : String → String → String → String
selecting before pkg after =
    concat
      (before ∷ pkg ∷ after ∷ " 2>$null | Select-String -SimpleMatch '" ∷ pkg ∷ "' -Quiet" ∷ [])

unfoldable pub powershell_commands : String → String → String × String
powershell_commands manager pkg =
    let plain = around (concat (manager ∷ " install '" ∷ [])) pkg "'" in
    if manager == "winget"
    then (
      selecting "winget list --exact --id '" pkg "'",
      around "winget install --id '" pkg
          "' --exact --accept-package-agreements --accept-source-agreements",
    )
    else if manager == "choco"
    then (
      selecting "choco list --local-only --exact '" pkg "'",
      around "choco install -y '" pkg "'",
    )
    else if manager == "scoop"
    then (around "scoop list 2>$null | Select-String -Pattern '^" pkg "\\s' -Quiet", plain)
    else if manager == "pip" || manager == "pip3"
    then (
      around (concat (manager ∷ " show '" ∷ [])) pkg
          "' 2>$null | Select-String -Pattern '^Name:' -Quiet",
      plain,
    )
    else if manager == "npm"
    then (selecting "npm list -g '" pkg "' --depth=0", around "npm install -g '" pkg "'")
    else if manager == "cargo"
    then (
      around "cargo install --list 2>$null | Select-String -SimpleMatch '" pkg " v' -Quiet",
      plain,
    )
    else if manager == "brew"
    then (selecting "brew list --versions '" pkg "'", plain)
    else (around "(Get-Command '" pkg "' -ErrorAction SilentlyContinue) -ne $null", plain)

unfoldable pub powershell_install_step : String → String → ScriptStepInput
unfolding powershell_commands
powershell_install_step manager pkg =
    let (check_expr, install_cmd) = powershell_commands manager pkg in
    record {
      command = concat (
          "if (" ∷ check_expr ∷ ") {\n  Write-Host \"[orion] " ∷ pkg
          ∷ " already installed.\"\n} else {\n  " ∷ install_cmd ∷ "\n}\nif (-not (" ∷ check_expr
          ∷ ")) {\n  throw \"[orion] Verification failed for " ∷ pkg ∷ ".\"\n}" ∷ []);
      explanation = concat ("Ensure package '" ∷ pkg ∷ "' is installed" ∷ []);
    }

abbrev pub refresh_step : String → List ScriptStepInput
refresh_step manager =
    if manager == "apt-get" || manager == "apt"
    then record {
      explanation = "Refresh package metadata";
      command = if manager == "apt" then "apt update" else "apt-get update";
    }
      ∷ []
    else []

abbrev pub install_description : String → List String → String
install_description manager packages =
    concat ("Install packages via " ∷ manager ∷ ": " ∷ join ", " packages ∷ [])

unfoldable pub build_install_script : String → ScriptPlatform → String → List String → String × Bool
unfolding join manager_requires_admin bash_install_step powershell_install_step build_bash_script
    build_powershell_script
build_install_script now ScriptPlatform.bash manager packages =
    let requires_admin = manager_requires_admin manager ScriptPlatform.bash in
    (
      build_bash_script now (install_description manager packages)
          (refresh_step manager ++ map (bash_install_step manager) packages) requires_admin [],
      requires_admin,
    )
build_install_script now ScriptPlatform.powershell manager packages =
    let requires_admin = manager_requires_admin manager ScriptPlatform.powershell in
    (
      build_powershell_script now (install_description manager packages)
          (map (powershell_install_step manager) packages) requires_admin [],
      requires_admin,
    )

abbrev pub run_command_text : ScriptPlatform → FilePath → String
run_command_text ScriptPlatform.bash path = concat ("bash \"" ∷ display path ∷ "\"" ∷ [])
run_command_text ScriptPlatform.powershell path =
    concat ("powershell.exe -ExecutionPolicy Bypass -File \"" ∷ display path ∷ "\"" ∷ [])

unfoldable pub build_mentor_instructions : FilePath → ScriptPlatform → String → String
unfolding display
build_mentor_instructions path platform reason = concat (
    "Orion could not complete this directly: "
    ∷ reason
    ∷ ".\n1) Retrieve the generated script at: "
    ∷ display path
    ∷ "\n2) Run it on the host machine:\n   "
    ∷ run_command_text platform path
    ∷ "\n3) Review output and confirm verification lines succeeded.\nIf the path is not directly accessible from the host, copy `script_content` into a local file and run it."
    ∷ [])
