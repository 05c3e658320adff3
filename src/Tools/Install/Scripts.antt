-- ===== src/Tools/Install/Scripts.antt =====
-- The scripts for the mentor that skills/skill-cooperative-install/src/lib.rs writes. `now` is the time
-- as a text.
use Prim.Native.Char.{code}
use orion_dock.Prelude.{
  ℕ, ◌+◌, String, Bool, List, [], ◌∷◌, ◌++◌, ◌&&◌, eqb, if◌then◌else◌, length, is_empty, empty_text,
  replace_char, join, decimal, concat,
}
use orion_dock.Tools.Host.{split_char}
use orion_dock.Tools.Install.{ScriptStepInput}

-- `s.lines()`
unfoldable pub without_return : String → String
without_return String.[] = ""
without_return (String.◌∷◌ c s) =
    let rest = without_return s in if eqb (code c) 13 && empty_text s then "" else String.◌∷◌ c rest

unfoldable pub end_lines : List String → List String
unfolding without_return
end_lines List.[] = []
end_lines (List.◌∷◌ last List.[]) = if empty_text last then [] else last ∷ []
end_lines (List.◌∷◌ line (List.◌∷◌ next more)) =
    without_return line ∷ end_lines (List.◌∷◌ next more)

unfoldable pub text_lines : String → List String
unfolding split_char end_lines
text_lines s = end_lines (split_char 10 s)

unfoldable pub shell_single_quote : String → String
unfolding replace_char
shell_single_quote value = replace_char 39 "'\\''" value

unfoldable pub ps_escape_double_quoted : String → String
unfolding replace_char
ps_escape_double_quoted value = replace_char 34 "`\"" (replace_char 96 "``" value)

unfoldable pub escape_for_double_quotes : String → String
unfolding replace_char
escape_for_double_quotes value = replace_char 34 "\\\"" (replace_char 92 "\\\\" value)

abbrev pub flat : {A : Type 0} → (A → List String) → List A → List String
flat f [] = []
flat f (x ∷ xs) = f x ++ flat f xs

-- Each step with its number, from `i + 1` on.
abbrev pub numbered_steps :
    (ℕ → ScriptStepInput → List String) → ℕ → List ScriptStepInput → List String
numbered_steps f i [] = []
numbered_steps f i (step ∷ steps) = f (i + 1) step ++ numbered_steps f (i + 1) steps

abbrev pub bash_check : String → List String → List String
bash_check check outcome =
    concat ("if bash -lc '" ∷ shell_single_quote check ∷ "' >/dev/null 2>&1; then" ∷ []) ∷ outcome

abbrev pub bash_admin : List String
bash_admin =
    "if [ \"${EUID:-$(id -u)}\" -ne 0 ]; then"
    ∷ "  echo \"[orion] This script requires root privileges. Re-run with sudo.\"" ∷ "  exit 1"
    ∷ "fi" ∷ "" ∷ []

abbrev pub bash_preflight : List String → List String
bash_preflight checks =
    "echo \"[orion] Preflight idempotency checks\""
    ∷ (flat
          (λ check. bash_check check (
            "  echo \"[orion] Check already satisfied.\"" ∷ "else"
            ∷ "  echo \"[orion] Check not yet satisfied; steps will run.\"" ∷ "fi" ∷ []))
          checks
        ++ ("" ∷ []))

abbrev pub bash_step : ℕ → ℕ → ScriptStepInput → List String
bash_step total number step =
    concat ("# Step " ∷ decimal number ∷ ": " ∷ step.explanation ∷ [])
    ∷ concat (
        "echo \"[orion] Step "
        ∷ decimal number
        ∷ "/"
        ∷ decimal total
        ∷ ": "
        ∷ escape_for_double_quotes step.explanation
        ∷ "\""
        ∷ [])
    ∷ (text_lines step.command ++ ("" ∷ []))

abbrev pub bash_verification : List String → List String
bash_verification checks =
    "echo \"[orion] Verification checks\""
    ∷ (flat
          (λ check. bash_check check (
            "  echo \"[orion] Verification passed.\"" ∷ "else"
            ∷ "  echo \"[orion] Verification failed.\"" ∷ "  exit 1" ∷ "fi" ∷ []))
          checks
        ++ ("" ∷ []))

unfoldable pub build_bash_script :
    String → String → List ScriptStepInput → Bool → List String → String
unfolding join shell_single_quote escape_for_double_quotes text_lines
build_bash_script now description steps requires_admin idempotent_checks = join "\n" (
    ("#!/usr/bin/env bash"
      ∷ "set -euo pipefail"
      ∷ ""
      ∷ "# Cooperative host script generated by Orion"
      ∷ concat ("# Description: " ∷ description ∷ [])
      ∷ concat ("# Generated UTC: " ∷ now ∷ [])
      ∷ ""
      ∷ concat ("echo \"[orion] Starting: " ∷ escape_for_double_quotes description ∷ "\"" ∷ [])
      ∷ [])
    ++ ((if requires_admin then bash_admin else [])
        ++ ((if is_empty idempotent_checks then [] else bash_preflight idempotent_checks)
            ++ (numbered_steps (bash_step (length steps)) 0 steps
                ++ ((if is_empty idempotent_checks
                      then "echo \"[orion] No explicit verification checks were provided.\"" ∷ []
                      else bash_verification idempotent_checks)
                    ++ ("echo \"[orion] Script completed successfully.\"" ∷ []))))))

abbrev pub powershell_admin : List String
powershell_admin =
    "$isAdmin = ([Security.Principal.WindowsPrincipal][Security.Principal.WindowsIdentity]::GetCurrent()).IsInRole([Security.Principal.WindowsBuiltInRole]::Administrator)"
    ∷ "if (-not $isAdmin) {" ∷ "  throw \"[orion] Administrator privileges are required.\"" ∷ "}"
    ∷ "" ∷ []

abbrev pub test_command : List String
test_command =
    "function Test-OrionCommand {" ∷ "  param([string]$Command)" ∷ "  try {"
    ∷ "    Invoke-Expression $Command | Out-Null"
    ∷ "    if ($LASTEXITCODE -ne $null -and $LASTEXITCODE -ne 0) {" ∷ "      return $false"
    ∷ "    }" ∷ "    return $true" ∷ "  } catch {" ∷ "    return $false" ∷ "  }" ∷ "}" ∷ ""
    ∷ "Write-Host \"[orion] Preflight idempotency checks\"" ∷ []

abbrev pub powershell_check : String → List String → List String
powershell_check check outcome =
    concat ("if (Test-OrionCommand \"" ∷ ps_escape_double_quoted check ∷ "\") {" ∷ []) ∷ outcome

abbrev pub powershell_preflight : List String → List String
powershell_preflight checks =
    test_command
    ++ (flat
          (λ check. powershell_check check (
            "  Write-Host \"[orion] Check already satisfied.\"" ∷ "} else {"
            ∷ "  Write-Host \"[orion] Check not yet satisfied; steps will run.\"" ∷ "}" ∷ []))
          checks
        ++ ("" ∷ []))

abbrev pub powershell_step : ℕ → ℕ → ScriptStepInput → List String
powershell_step total number step =
    concat ("# Step " ∷ decimal number ∷ ": " ∷ step.explanation ∷ [])
    ∷ concat (
        "Write-Host \"[orion] Step "
        ∷ decimal number
        ∷ "/"
        ∷ decimal total
        ∷ ": "
        ∷ ps_escape_double_quoted step.explanation
        ∷ "\""
        ∷ [])
    ∷ (text_lines step.command ++ ("" ∷ []))

abbrev pub powershell_verification : List String → List String
powershell_verification checks =
    "Write-Host \"[orion] Verification checks\""
    ∷ (flat
          (λ check. powershell_check check (
            "  Write-Host \"[orion] Verification passed.\"" ∷ "} else {"
            ∷ "  throw \"[orion] Verification failed.\"" ∷ "}" ∷ []))
          checks
        ++ ("" ∷ []))

unfoldable pub build_powershell_script :
    String → String → List ScriptStepInput → Bool → List String → String
unfolding join ps_escape_double_quoted text_lines
build_powershell_script now description steps requires_admin idempotent_checks = join "\n" (
    (if requires_admin then "#Requires -RunAsAdministrator" ∷ [] else [])
    ++ (("$ErrorActionPreference = 'Stop'"
          ∷ "Set-StrictMode -Version Latest"
          ∷ ""
          ∷ "# Cooperative host script generated by Orion"
          ∷ concat ("# Description: " ∷ description ∷ [])
          ∷ concat ("# Generated UTC: " ∷ now ∷ [])
          ∷ ""
          ∷ concat
              ("Write-Host \"[orion] Starting: " ∷ ps_escape_double_quoted description ∷ "\"" ∷ [])
          ∷ [])
        ++ ((if requires_admin then powershell_admin else [])
            ++ ((if is_empty idempotent_checks then [] else powershell_preflight idempotent_checks)
                ++ (numbered_steps (powershell_step (length steps)) 0 steps
                    ++ ((if is_empty idempotent_checks
                          then "Write-Host \"[orion] No explicit verification checks were provided.\""
                            ∷ []
                          else powershell_verification idempotent_checks)
                        ++ ("Write-Host \"[orion] Script completed successfully.\"" ∷ [])))))))
