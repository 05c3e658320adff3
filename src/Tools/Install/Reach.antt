-- ===== src/Tools/Install/Reach.antt =====
-- What the tools of skills/skill-cooperative-install/src/lib.rs do to the world.
use native.Mathlib.Nat.{min-le_left}
use orion_dock.Tools.Install.Scripts.{build_bash_script, build_powershell_script}
use orion_dock.Prelude.{
  sym, map, trim, Bool-cases, eq_iff, ℕ, ◌≤◌, String, ◌≡◌, refl, subst, inl, inr, Bool, true, false,
  not, Option, none, some, List, [], ◌∷◌, ◌++◌, if◌then◌else◌, is_empty, All, is_blank, ◌==◌, ◌⧺◌,
  join,
}
use orion_dock.Skills.Registry.{SkillResult}
use orion_dock.Skills.Executor.{ToolOutput, ToolParams}
use orion_dock.Tools.Host.{Io, Os, Json}
use orion_dock.Tools.Install.{
  sanitize_name, Ascii, Checked, ScriptPlatform, EnvironmentSnapshot, ScriptStepInput,
  CooperativeInstallSkill, select_runtime_manager, build_direct_install_command, toolbox_command,
  from_requested, validate_safe_command, normalize_package_manager, default_host_manager,
}
use orion_dock.Tools.Install.Names.{IsPackage, Lowers, IsClean, sanitize_name-IsClean}
use orion_dock.Tools.Install.Steps.{build_install_script}
use orion_dock.Tools.Install.Flow.{
  Probes, Decoder, Attempt, Run, and_then, pure, checked, io, or_panic, requested,
  execute_shell_command, file_name, validate_packages, install_directly, install_beside, attempt,
  persist_script, script_for_mentor, conclude, cooperative_install, or_else,
}
use orion_dock.Tools.Install.Tool.{
  script_on, with_safe_steps, with_safe_checks, write_script, generate_host_script, with_required,
  param, execute_tool,
}
use orion_dock.Tools.Install.Valid.{
  validate_packages-ok, Harmless, AllHarmless, validate_safe_command-Harmless,
}

-- `wanted` says which packages a request is for, and `given` which steps and checks it has.
module _ {W : Type 0} (ascii : Ascii) (os : Os W) (probes : Probes W) (lowers : Lowers ascii)
    (wanted : List String → Type 0) (given : List ScriptStepInput → List String → Type 0)
    (w : W) where
  abbrev pub Valid : List String → Type 0
  Valid packages = wanted packages × All IsPackage packages

  -- The folder for scripts is made.
  abbrev pub with_folder : W → W
  with_folder v = (os.create_dir_all (probes.scripts_root v) v).1

  -- The scripts of a request: for its packages, or of its steps and checks, all harmless
  pub data Scripted : String → Type 0 where
    for_packages :
        (now : String) (platform : ScriptPlatform) (manager : String) (packages : List String)
        → Valid packages
        → Scripted (build_install_script now platform manager packages).0
    in_bash :
        (now description : String) (steps : List ScriptStepInput) (admin : Bool)
        (checks : List String)
        → given steps checks
        → AllHarmless ascii steps checks
        → Scripted (build_bash_script now description steps admin checks)
    in_powershell :
        (now description : String) (steps : List ScriptStepInput) (admin : Bool)
        (checks : List String)
        → given steps checks
        → AllHarmless ascii steps checks
        → Scripted (build_powershell_script now description steps admin checks)

  -- The worlds that a request can lead to: by probing the system, by a command that installs its
  -- packages, here, under a timeout of at most two minutes, or in the sidecar, and by writing a script
  -- of the request into the folder for scripts.
  pub data Reach : W → Type 0 where
    here : Reach w
    probed : (v : W) → Reach v → Reach (probes.snapshot v).1
    installed :
        (v : W) (manager command : String) (packages : List String) (secs : ℕ)
        → Reach v
        → Valid packages
        → build_direct_install_command manager packages ≡ Checked.ok command
        → secs ≤ 120
        → Reach (probes.shell command secs v).1
    delegated :
        (v : W) (url manager : String) (packages : List String)
        → Reach v
        → Valid packages
        → Reach (probes.exec url (toolbox_command manager packages) v).1
    created : (v : W) → Reach v → Reach (os.create_dir_all (probes.scripts_root v) v).1
    wrote :
        (v : W) (base_name content : String) (platform : ScriptPlatform)
        → Reach v
        → IsClean (sanitize_name ascii base_name)
        → Scripted content
        → Reach
            (os.write
              (probes.scripts_root v
                ++ (file_name ascii (probes.timestamp (with_folder v)) base_name platform ∷ []))
              content
              (with_folder v)).1

  and_then-Reach :
      {A B : Type 0} (r : Option (SkillResult A) × W) (k : A → Run W B)
      → Reach r.1
      → ((a : A) → r.0 ≡ some (SkillResult.ok a) → Reach (k a r.1).1)
      → Reach (and_then r k).1
  and_then-Reach (some (SkillResult.ok a), v) k h next = next a refl
  and_then-Reach (some (SkillResult.err e), v) k h next = h
  and_then-Reach (none, v) k h next = h

  checked-Reach :
      {A B : Type 0} (c : Checked A) (k : A → Run W B) (v : W)
      → Reach v
      → ((a : A) → c ≡ Checked.ok a → Reach (k a v).1)
      → Reach (and_then (checked c v) k).1
  checked-Reach (Checked.ok a) k v h next = next a refl
  checked-Reach (Checked.err e) k v h next = h

  io-Reach :
      {A B : Type 0} (message : String) (answer : Io A) (k : A → Run W B) (v : W)
      → Reach v
      → ((a : A) → Reach (k a v).1)
      → Reach (and_then (io message answer v) k).1
  io-Reach message (Io.done a) k v h next = next a
  io-Reach message (Io.failed e) k v h next = h

  then_pure-Reach :
      {A B : Type 0} (r : Option (SkillResult A) × W) (f : A → B)
      → Reach r.1
      → Reach (and_then r (λ a. pure (f a))).1
  then_pure-Reach (some (SkillResult.ok a), v) f h = h
  then_pure-Reach (some (SkillResult.err e), v) f h = h
  then_pure-Reach (none, v) f h = h

  or_panic-Reach : {A : Type 0} (o : Option A) (v : W) → Reach v → Reach (or_panic o v).1
  or_panic-Reach none v h = h
  or_panic-Reach (some a) v h = h

  if-Reach :
      {A : Type 0} (b : Bool) (m k : Run W A) (v : W)
      → Reach (m v).1
      → Reach (k v).1
      → Reach ((if b then m else k) v).1
  if-Reach true m k v hm hk = hm
  if-Reach false m k v hm hk = hk

  module _ {Value : Type 0} (json : Json Value) (decoder : Decoder Value) where
    asked-Reach :
        {A : Type 0} (c : Checked String) (k : Option String → Run W A) (v : W)
        → Reach v
        → ((m : Option String) → Reach (k m v).1)
        → Reach (and_then (and_then (checked c v) (λ manager. pure (some manager))) k).1
    asked-Reach (Checked.ok m) k v h next = next (some m)
    asked-Reach (Checked.err e) k v h next = h

    requested-Reach :
        {A : Type 0} (raw : Option String) (k : Option String → Run W A) (v : W)
        → Reach v
        → ((m : Option String) → Reach (k m v).1)
        → Reach (and_then (requested json decoder ascii os probes raw v) k).1
    requested-Reach none k v h next = next none
    requested-Reach (some raw) k v h next =
        asked-Reach (normalize_package_manager ascii raw) k v h next

    persist_script-Reach :
        (base_name content : String) (platform : ScriptPlatform) (v : W)
        → Scripted content
        → Reach v
        → Reach (persist_script json decoder ascii os probes base_name platform content v).1
    unfolding persist_script
    persist_script-Reach base_name content platform v scripted h =
        let dir = probes.scripts_root v in
        let clean = sanitize_name-IsClean ascii lowers base_name in
        let made = os.create_dir_all dir v in
        io-Reach "Failed to create script directory: " made.0 _ made.1 (created v h) λ u.
          let written =
            os.write (dir ++ (file_name ascii (probes.timestamp made.1) base_name platform ∷ []))
              content made.1 in
          io-Reach "Failed to write script file: " written.0 _ written.1
            (wrote v base_name content platform h clean scripted)
            λ u. wrote v base_name content platform h clean scripted

    script_for_mentor-Reach :
        (packages : List String) (env : EnvironmentSnapshot) (platform : ScriptPlatform)
        (manager : Option String) (reason : String) (runtime : Option String) (direct : _) (v : W)
        → Valid packages
        → Reach v
        → Reach
            (script_for_mentor json decoder ascii os probes packages env platform manager reason
              runtime direct v).1
    script_for_mentor-Reach packages env platform manager reason runtime direct v valid h =
        let name = "install-" ⧺ join "-" packages in
        let content =
          (build_install_script (probes.now v) platform
            (or_else (default_host_manager platform) manager) packages).0 in
        then_pure-Reach (persist_script json decoder ascii os probes name platform content v) _ (
          persist_script-Reach name content platform v
            (Scripted.for_packages (probes.now v) platform _ packages valid) h)

    execute_shell_command-Reach :
        (skill : CooperativeInstallSkill Value) (manager command : String) (packages : List String)
        (v : W)
        → Reach v
        → Valid packages
        → build_direct_install_command manager packages ≡ Checked.ok command
        → Reach (execute_shell_command json decoder ascii os probes skill command v).1
    unfolding execute_shell_command
    execute_shell_command-Reach skill manager command packages v h valid built =
        or_panic-Reach _ _ (installed v manager command packages _ h valid built (min-le_left _ _))

    install_directly-Reach :
        (skill : CooperativeInstallSkill Value) (packages : List String) (env : EnvironmentSnapshot)
        (manager : Option String) (v : W)
        → Reach v
        → Valid packages
        → Reach (install_directly json decoder ascii os probes skill packages env manager v).1
    install_directly-Reach skill packages env none v h valid = h
    install_directly-Reach skill packages env (some manager) v h valid =
        checked-Reach (build_direct_install_command manager packages) _ v h λ command built.
          let ran = execute_shell_command-Reach skill manager command packages v h valid built in
          and_then-Reach (execute_shell_command json decoder ascii os probes skill command v) _ ran
            (λ answer e. ran)

    install_beside-Reach :
        (packages : List String) (env : EnvironmentSnapshot) (manager : String)
        (url : Option String) (v : W)
        → Reach v
        → Valid packages
        → Reach (install_beside json decoder ascii os probes packages env manager url v).1
    install_beside-Reach packages env manager none v h valid = h
    install_beside-Reach packages env manager (some url) v h valid =
        delegated v url manager packages h valid

    attempt-Reach :
        (skill : CooperativeInstallSkill Value) (packages : List String) (env : EnvironmentSnapshot)
        (manager : Option String) (v : W)
        → Reach v
        → Valid packages
        → Reach (attempt json decoder ascii os probes skill packages env manager v).1
    attempt-Reach skill packages env manager v h valid =
        if-Reach (not env.is_containerized) _ _ v
          (install_directly-Reach skill packages env (select_runtime_manager env manager) v h valid)
          (install_beside-Reach packages env (or_else "apt-get" manager) (probes.toolbox_url v) v h
            valid)

    conclude-Reach :
        (packages : List String) (env : EnvironmentSnapshot) (platform : ScriptPlatform)
        (manager : Option String) (outcome : Attempt Value) (v : W)
        → Valid packages
        → Reach v
        → Reach (conclude json decoder ascii os probes packages env platform manager outcome v).1
    conclude-Reach packages env platform manager (Attempt.answered out) v valid h = h
    conclude-Reach packages env platform manager (Attempt.fallback reason runtime direct) v valid
          h =
        script_for_mentor-Reach packages env platform manager reason runtime direct v valid h

    cooperative_install-Reach :
        (skill : CooperativeInstallSkill Value) (raw : List String)
        (manager_raw platform_raw : Option String) (v : W)
        → wanted (map trim raw)
        → Reach v
        → Reach
            (cooperative_install json decoder ascii os probes skill raw manager_raw platform_raw
              v).1
    unfolding cooperative_install
    cooperative_install-Reach skill raw manager_raw platform_raw v asked h =
        if-Reach (is_empty raw) _ _ v h (
          checked-Reach (validate_packages raw) _ v h λ packages valid.
            let (named, trimmed) = validate_packages-ok raw packages valid in
            let valid' : Valid packages = (subst wanted (sym trimmed) asked, named) in
            requested-Reach manager_raw _ v h λ manager.
              checked-Reach (from_requested ascii (probes.host_os v) platform_raw) _ v h
                λ platform known.
                  let seen = probes.snapshot v in
                  let tried =
                    attempt-Reach skill packages seen.0 manager seen.1 (probed v h) valid' in
                  and_then-Reach
                    (attempt json decoder ascii os probes skill packages seen.0 manager seen.1) _
                    tried
                    λ outcome e.
                      conclude-Reach packages seen.0 platform manager outcome _ valid' tried)

    with_safe_checks-Reach :
        (checks : List String) (k : Run W (ToolOutput Value)) (v : W)
        → Reach v
        → (All (Harmless ascii) checks → Reach (k v).1)
        → Reach (with_safe_checks json decoder ascii os probes checks k v).1
    with_safe_checks-Reach [] k v h next = next tt
    with_safe_checks-Reach (check ∷ checks) k v h next =
        checked-Reach (validate_safe_command ascii check) _ v h λ u e.
          with_safe_checks-Reach checks k v h
            λ rest. next (validate_safe_command-Harmless ascii check u e, rest)

    with_safe_steps-Reach :
        (steps : List ScriptStepInput) (k : Run W (ToolOutput Value)) (v : W)
        → Reach v
        → (All (λ (step : ScriptStepInput). Harmless ascii step.command) steps → Reach (k v).1)
        → Reach (with_safe_steps json decoder ascii os probes steps k v).1
    with_safe_steps-Reach [] k v h next = next tt
    with_safe_steps-Reach (step ∷ steps) k v h next = if-Reach (is_blank step.command) _ _ v h (
        if-Reach (is_blank step.explanation) _ _ v h (
          checked-Reach (validate_safe_command ascii step.command) _ v h λ u e.
            with_safe_steps-Reach steps k v h
              λ rest. next (validate_safe_command-Harmless ascii step.command u e, rest)))

    script_on-Scripted :
        (platform : ScriptPlatform) (now description : String) (steps : List ScriptStepInput)
        (admin : Bool) (checks : List String)
        → given steps checks
        → AllHarmless ascii steps checks
        → Scripted
            (script_on json decoder ascii os probes platform now description steps admin checks)
    script_on-Scripted ScriptPlatform.bash now description steps admin checks =
        Scripted.in_bash now description steps admin checks
    script_on-Scripted ScriptPlatform.powershell now description steps admin checks =
        Scripted.in_powershell now description steps admin checks

    write_script-Reach :
        (description : String) (steps : List ScriptStepInput) (platform_raw : Option String)
        (admin : Bool) (checks : List String) (v : W)
        → given steps checks
        → AllHarmless ascii steps checks
        → Reach v
        → Reach
            (write_script json decoder ascii os probes description steps platform_raw admin checks
              v).1
    write_script-Reach description steps platform_raw admin checks v asked harmless h =
        checked-Reach (from_requested ascii (probes.host_os v) platform_raw) _ v h λ platform known.
          let content =
            script_on json decoder ascii os probes platform (probes.now v) description steps admin
              checks in
          then_pure-Reach
            (persist_script json decoder ascii os probes description platform content v) _
            (persist_script-Reach description content platform v
              (script_on-Scripted platform (probes.now v) description steps admin checks asked
                harmless)
              h)

    generate_host_script-Reach :
        (description : String) (steps : List ScriptStepInput) (platform_raw : Option String)
        (admin : Bool) (checks : List String) (v : W)
        → given steps checks
        → Reach v
        → Reach
            (generate_host_script json decoder ascii os probes description steps platform_raw admin
              checks v).1
    unfolding generate_host_script
    generate_host_script-Reach description steps platform_raw admin checks v asked h =
        if-Reach (is_blank description) _ _ v h (
          if-Reach (is_empty steps) _ _ v h (
            with_safe_steps-Reach steps _ v h λ safe_steps.
              with_safe_checks-Reach checks _ v h λ safe_checks.
                write_script-Reach description steps platform_raw admin checks v asked
                  (safe_steps, safe_checks) h))

    with_required-Reach :
        {A : Type 0} (key : String) (value : Option A) (k : A → Run W (ToolOutput Value)) (v : W)
        → Reach v
        → ((a : A) → value ≡ some a → Reach (k a v).1)
        → Reach (with_required json decoder ascii os probes key value k v).1
    with_required-Reach key none k v h next = h
    with_required-Reach key (some a) k v h next = next a refl

    named-Reach :
        (tool_name name : String) (m k : Run W (ToolOutput Value)) (v : W)
        → (tool_name ≡ name → Reach (m v).1)
        → Reach (k v).1
        → Reach ((if tool_name == name then m else k) v).1
    named-Reach tool_name name m k v on_true on_false = elim (Bool-cases (tool_name == name)) [
      | inl same ↦ rw same (on_true ((eq_iff tool_name name).0 same))
      | inr other ↦ rw other on_false
    ]

module _ {W Value : Type 0} (json : Json Value) (decoder : Decoder Value) (ascii : Ascii)
    (os : Os W) (probes : Probes W) (tool_name : String) (params : ToolParams Value) where
  -- The packages of a request are the trimmed names of its parameters.
  abbrev pub Wanted : List String → Type 0
  Wanted packages =
      (names : List String) × (tool_name ≡ "cooperative_install")
      × (param json decoder ascii os probes decoder.to_texts params "packages" ≡ some names)
      × (packages ≡ map trim names)

  abbrev pub Given : List ScriptStepInput → List String → Type 0
  Given steps checks =
      (tool_name ≡ "generate_host_script")
      × (param json decoder ascii os probes decoder.to_steps params "steps" ≡ some steps)
      × (checks
          ≡ or_else []
              (param json decoder ascii os probes decoder.to_texts params "idempotent_checks"))

  -- When the standard library lowers letters: whatever tool is called with whatever parameters, the world
  -- is left as it can be reached by probing the system, by a command that installs the packages of the
  -- parameters, each of letters, digits and seven signs, here, under a timeout of at most two minutes, or
  -- in the sidecar, and by writing, under a sanitized name into the folder for scripts, a script for these
  -- packages or of the steps and checks of the parameters, none of which has a blocked pattern.
  pub execute_tool-Reach :
      (lowers : Lowers ascii) (skill : CooperativeInstallSkill Value) (w : W)
      → Reach ascii os probes lowers Wanted Given w
          (execute_tool json decoder ascii os probes skill tool_name params w).1
  unfolding execute_tool
  execute_tool-Reach lowers skill w =
      let named = named-Reach ascii os probes lowers Wanted Given w json decoder tool_name in
      named "detect_environment" _ _ w (λ e. Reach.probed w Reach.here)
        (named "cooperative_install" _ _ w
          (λ e.
            with_required-Reach ascii os probes lowers Wanted Given w json decoder "packages"
              (param json decoder ascii os probes decoder.to_texts params "packages") _ w Reach.here
              λ names found.
                cooperative_install-Reach ascii os probes lowers Wanted Given w json decoder skill
                  names _ _ w (names, e, found, refl) Reach.here)
          (named "generate_host_script" _ _ w
            (λ e.
              with_required-Reach ascii os probes lowers Wanted Given w json decoder "description"
                (param json decoder ascii os probes json.to_string params "description") _ w
                Reach.here
                λ description told.
                  with_required-Reach ascii os probes lowers Wanted Given w json decoder "steps"
                    (param json decoder ascii os probes decoder.to_steps params "steps") _ w
                    Reach.here
                    λ steps found.
                      generate_host_script-Reach ascii os probes lowers Wanted Given w json decoder
                        description steps _ _ _ w (e, found, refl) Reach.here)
            Reach.here))
