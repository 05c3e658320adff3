-- ===== src/Tools/Toolbox/Safety.antt =====
-- What the toolbox skill sends to the sidecar.
use orion_dock.Prelude.{
  any-Elem, eq_iff, subst, Bool-cases, inl, inr, Elem, not_of_false, ℕ, String, ◌≡◌, refl, Bool,
  true, false, Option, none, some, List, [], ◌∷◌, ◌⧺◌, contains_text, trim, arith, if◌then◌else◌,
  All, ◌==◌,
}
use orion_dock.Affixes.{contains_text_iff}
use orion_dock.Skills.Registry.{SkillResult}
use orion_dock.Skills.Executor.{ToolOutput, ToolParams}
use orion_dock.Tools.Host.{Io, Json}
use orion_dock.Tools.Shell.{is_elevated}
use orion_dock.Tools.Shell.Safety.{
  Has, Begins, find_first-none, blocked_reason-none, is_elevated-false,
}
use orion_dock.Tools.Install.{is_one_of}
use orion_dock.Tools.Install.Names.{IsPackage, validate_package_chars_iff}
use orion_dock.Tools.Toolbox.{
  toolbox_package_managers, DockerExecSkill, Http, Codec, Cases, blocked_patterns,
  elevated_commands, elevated_reason, check_safety, check_packages, install_command, or_text,
}
use orion_dock.Tools.Toolbox.Calls.{
  install_with, exec_checked, after_health, http_client, exec_body, post_exec, exec_in_toolbox,
  run_install, install_checked, install_in_toolbox, ask_status, toolbox_status, exec_tool,
  install_tool, execute_tool, param,
}

elevated_reason-none : (found : Option String) → elevated_reason found ≡ none → found ≡ none
unfolding elevated_reason
elevated_reason-none none h = refl
elevated_reason-none (some pattern) h = cc

-- Each name, trimmed, is one that can be passed to a package manager.
abbrev pub AllPackages : List String → Type 0
AllPackages = All (λ pkg. IsPackage (trim pkg))

check_packages-AllPackages :
    (packages : List String) → check_packages packages ≡ none → AllPackages packages
unfolding check_packages
check_packages-AllPackages [] h = tt
check_packages-AllPackages (pkg ∷ packages) h = (
  (ground arith, (validate_package_chars_iff (trim pkg)).0 (ground arith)),
  check_packages-AllPackages packages (ground arith),
)

module _ (cases : Cases) where
  -- No blocked pattern occurs in the lowered command, and no elevated one stands at its start or
  -- behind a space.
  pub record IsSafe (command : String) : Type 0 where
    pub unblocked :
        (pattern : String)
        → Elem pattern blocked_patterns
        → ¬ Has (cases.to_lowercase command) pattern
    pub plain :
        (pattern : String)
        → Elem pattern elevated_commands
        → (¬ Begins (cases.to_lowercase command) pattern)
          × (¬ Has (cases.to_lowercase command) (" " ⧺ pattern))

  check_safety-IsSafe : (command : String) → check_safety cases command ≡ none → IsSafe command
  unfolding check_safety
  check_safety-IsSafe command h =
      let lower = cases.to_lowercase command in
      let (free, otherwise) = (blocked_reason-none _ _).0 h in
      record {
        unblocked = λ pattern e.
            not_of_false (contains_text lower pattern) (contains_text_iff lower pattern)
              (find_first-none (contains_text lower) e free);
        plain = λ pattern e.
            (is_elevated-false cases.to_lowercase trim pattern lower).0
              (find_first-none (is_elevated lower) e (elevated_reason-none _ otherwise));
      }

module _ {Value W : Type 0} (json : Json Value) (codec : Codec Value) (http : Http Value W)
    (cases : Cases) where
  -- A command is not sent, or it is safe and sent as it is.
  pub data Posted (skill : DockerExecSkill Value) (command : String) (dir : Option String)
      (secs : Option ℕ) (w : W) : W → Type 0 where
    silent : Posted skill command dir secs w w
    sent :
        (token : Option String)
        → IsSafe cases command
        → Posted skill command dir secs w
            (http.post token
              (skill.toolbox_url ⧺ "/exec")
              (exec_body json codec http cases command dir secs)
              w).1

  -- An installation sends nothing, or the command for a manager of the toolbox and for packages whose
  -- names are valid.
  pub data Installed (skill : DockerExecSkill Value) (packages : List String) (w : W)
      : W → Type 0 where
    refused : Installed skill packages w w
    installed :
        (manager command : String) (v : W)
        → AllPackages packages
        → Elem manager ("apt-get" ∷ "apt" ∷ "pip" ∷ "pip3" ∷ "npm" ∷ [])
        → install_command manager packages ≡ some command
        → Posted skill command none (some 180) w v
        → Installed skill packages w v

  -- The questions of the status
  pub data Asked (skill : DockerExecSkill Value) (w : W) : W → Type 0 where
    unasked : Asked skill w w
    health :
        (token : Option String) → Asked skill w (http.get token (skill.toolbox_url ⧺ "/health") w).1
    tools :
        (token : Option String)
        → Asked skill w
            (http.get token
              (skill.toolbox_url ⧺ "/tools")
              (http.get token (skill.toolbox_url ⧺ "/health") w).1).1

  -- What the call of a tool with its parameters sends
  pub data Sent (skill : DockerExecSkill Value) (tool_name : String) (params : ToolParams Value)
      (w : W) : W → Type 0 where
    nothing : Sent skill tool_name params w w
    by_exec :
        (command : String) (v : W)
        → tool_name ≡ "toolbox_exec"
        → param json codec http cases json.to_string params "command" ≡ some command
        → Posted skill command
            (param json codec http cases json.to_string params "working_directory")
            (param json codec http cases json.to_number params "timeout_secs")
            w
            v
        → Sent skill tool_name params w v
    by_install :
        (packages : List String) (v : W)
        → tool_name ≡ "toolbox_install"
        → param json codec http cases codec.to_texts params "packages" ≡ some packages
        → Installed skill packages w v
        → Sent skill tool_name params w v
    by_status :
        (v : W) → tool_name ≡ "toolbox_status" → Asked skill w v → Sent skill tool_name params w v

  post_exec-Posted :
      (skill : DockerExecSkill Value) (command : String) (dir : Option String) (secs : Option ℕ)
      (client : Io (Option String)) (w : W)
      → IsSafe cases command
      → Posted skill command dir secs w
          (post_exec json codec http cases skill command dir secs client w).1
  post_exec-Posted skill command dir secs (Io.failed e) w safe = Posted.silent
  post_exec-Posted skill command dir secs (Io.done token) w safe = Posted.sent token safe

  exec_checked-Posted :
      (skill : DockerExecSkill Value) (command : String) (dir : Option String) (secs : Option ℕ)
      (reason : Option String) (w : W)
      → check_safety cases command ≡ reason
      → Posted skill command dir secs w
          (exec_checked json codec http cases skill command dir secs reason w).1
  exec_checked-Posted skill command dir secs (some reason) w h = Posted.silent
  exec_checked-Posted skill command dir secs none w h =
      post_exec-Posted skill command dir secs (http_client json codec http cases skill) w
        (check_safety-IsSafe cases command h)

  exec_in_toolbox-Posted :
      (skill : DockerExecSkill Value) (command : String) (dir : Option String) (secs : Option ℕ)
      (w : W)
      → Posted skill command dir secs w
          (exec_in_toolbox json codec http cases skill command dir secs w).1
  unfolding exec_in_toolbox
  exec_in_toolbox-Posted skill command dir secs w =
      exec_checked-Posted skill command dir secs (check_safety cases command) w refl

  known_manager :
      (manager : String)
      → is_one_of manager toolbox_package_managers ≡ true
      → Elem manager ("apt-get" ∷ "apt" ∷ "pip" ∷ "pip3" ∷ "npm" ∷ [])
  known_manager manager h =
      let (n, e, same) = any-Elem (λ n. n == manager) toolbox_package_managers h in
      subst (λ n. Elem n toolbox_package_managers) ((eq_iff n manager).0 same) e

  run_install-Installed :
      (skill : DockerExecSkill Value) (packages : List String) (manager : String)
      (command : Option String) (w : W)
      → AllPackages packages
      → is_one_of (cases.to_ascii_lowercase manager) toolbox_package_managers ≡ true
      → install_command (cases.to_ascii_lowercase manager) packages ≡ command
      → Installed skill packages w
          (run_install json codec http cases skill packages manager command w).1
  run_install-Installed skill packages manager none w named known h = Installed.refused
  run_install-Installed skill packages manager (some command) w named known h =
      Installed.installed _ command _ named (known_manager _ known) h
        (exec_in_toolbox-Posted skill command none (some 180) w)

  install_with-Installed :
      (skill : DockerExecSkill Value) (packages : List String) (manager : String) (known : Bool)
      (w : W)
      → AllPackages packages
      → is_one_of (cases.to_ascii_lowercase manager) toolbox_package_managers ≡ known
      → Installed skill packages w
          (install_with json codec http cases skill packages manager known w).1
  install_with-Installed skill packages manager false w named k = Installed.refused
  install_with-Installed skill packages manager true w named k =
      run_install-Installed skill packages manager _ w named k refl

  install_checked-Installed :
      (skill : DockerExecSkill Value) (packages : List String) (manager : String)
      (message : Option String) (w : W)
      → check_packages packages ≡ message
      → Installed skill packages w
          (install_checked json codec http cases skill packages manager message w).1
  install_checked-Installed skill packages manager (some message) w h = Installed.refused
  install_checked-Installed skill packages manager none w h =
      install_with-Installed skill packages manager _ w (check_packages-AllPackages packages h) refl

  install_in_toolbox-Installed :
      (skill : DockerExecSkill Value) (packages : List String) (manager : Option String) (w : W)
      → Installed skill packages w
          (install_in_toolbox json codec http cases skill packages manager w).1
  unfolding install_in_toolbox
  install_in_toolbox-Installed skill [] manager w = Installed.refused
  install_in_toolbox-Installed skill (pkg ∷ packages) manager w =
      install_checked-Installed skill (pkg ∷ packages) (or_text "apt-get" manager) _ w refl

  after_health-Asked :
      (skill : DockerExecSkill Value) (token : Option String) (up : Bool) (w : W)
      → Asked skill w
          (after_health json codec http cases skill token up
            (http.get token (skill.toolbox_url ⧺ "/health") w).1).1
  after_health-Asked skill token false w = Asked.health token
  after_health-Asked skill token true w = Asked.tools token

  ask_status-Asked :
      (skill : DockerExecSkill Value) (client : Io (Option String)) (w : W)
      → Asked skill w (ask_status json codec http cases skill client w).1
  ask_status-Asked skill (Io.failed e) w = Asked.unasked
  ask_status-Asked skill (Io.done token) w = after_health-Asked skill token _ w

  module _ (skill : DockerExecSkill Value) (tool_name : String) (params : ToolParams Value)
      (w : W) where
    exec_tool-Sent :
        (given : Option String)
        → tool_name ≡ "toolbox_exec"
        → param json codec http cases json.to_string params "command" ≡ given
        → Sent skill tool_name params w
            (exec_tool json codec http cases skill given
              (param json codec http cases json.to_string params "working_directory")
              (param json codec http cases json.to_number params "timeout_secs")
              w).1
    exec_tool-Sent none named e = Sent.nothing
    exec_tool-Sent (some command) named e =
        Sent.by_exec command _ named e (exec_in_toolbox-Posted skill command _ _ w)

    install_tool-Sent :
        (given : Option (List String)) (manager : Option String)
        → tool_name ≡ "toolbox_install"
        → param json codec http cases codec.to_texts params "packages" ≡ given
        → Sent skill tool_name params w (install_tool json codec http cases skill given manager w).1
    install_tool-Sent none manager named e = Sent.nothing
    install_tool-Sent (some packages) manager named e =
        Sent.by_install packages _ named e (install_in_toolbox-Installed skill packages manager w)

    if-Sent :
        (name : String) (x y : SkillResult (ToolOutput Value) × W)
        → (tool_name ≡ name → Sent skill tool_name params w x.1)
        → Sent skill tool_name params w y.1
        → Sent skill tool_name params w (if tool_name == name then x else y).1
    if-Sent name x y on_true on_false = elim (Bool-cases (tool_name == name)) [
      | inl same ↦ rw same (on_true ((eq_iff tool_name name).0 same))
      | inr other ↦ rw other on_false
    ]

    -- A call of a tool sends nothing to the sidecar, or, by the tool's name: the command of its
    -- parameters, which passes the safety check; the command that installs the packages of its parameters,
    -- with a manager of the toolbox, where each name is not blank and, trimmed, of letters, digits and seven
    -- signs, and which passes the safety check; or the questions of the status.
    pub execute_tool-Sent :
        Sent skill tool_name params w
          (execute_tool json codec http cases skill tool_name params w).1
    unfolding execute_tool toolbox_status
    execute_tool-Sent =
        if-Sent "toolbox_exec" _ _ (λ named. exec_tool-Sent _ named refl)
          (if-Sent "toolbox_install" _ _ (λ named. install_tool-Sent _ _ named refl)
            (if-Sent "toolbox_status" _ _
              (λ named. Sent.by_status _ named (ask_status-Asked skill _ w)) Sent.nothing))
