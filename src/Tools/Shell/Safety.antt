-- ===== src/Tools/Shell/Safety.antt =====
-- Which commands the shell skill starts, and under which timeout.
use native.Mathlib.Nat.{min-le_right}
use orion_dock.Prelude.{
  not_of_false, false_of_not, ℕ, ◌≤◌, String, ◌≡◌, refl, ap, ◌↔◌, ◌⊎◌, inl, inr, Bool, false,
  Option, none, some, List, [], ◌∷◌, arith, Elem, find_first, Bool-cases, ◌⧺◌, contains_text,
  starts_with, Option-cases, else_of,
}
use orion_dock.Affixes.{starts_with-append_iff, contains_text_iff}
use orion_dock.Skills.Executor.{ToolOutput}
use orion_dock.Tools.Host.{Json}
use orion_dock.Tools.Shell.{
  dir_text, no_directory, ShellSkill, Host, blocked_patterns, elevated_commands, is_elevated,
  check_safety, effective_timeout, blocked_reason, elevated_reason, run_command, is_missing,
  blocked,
}

-- A text has another in one piece, or at its start.
abbrev pub Has : String → String → Type 0
Has s t = (p : String) × (r : String) × (s ≡ p ⧺ (t ⧺ r))

abbrev pub Begins : String → String → Type 0
Begins s t = (r : String) × (s ≡ t ⧺ r)

pub find_first-none :
    {A : Type 0} (p : A → Bool) {a : A} {xs : List A}
    → Elem a xs
    → find_first p xs ≡ none
    → p a ≡ false
find_first-none p Elem.here h = ground arith
find_first-none p (Elem.there {x} {xs} e) h = ground (arith, find_first-none p e)

none-find_first :
    {A : Type 0} (p : A → Bool) (xs : List A)
    → ((a : A) → Elem a xs → p a ≡ false)
    → find_first p xs ≡ none
none-find_first p [] h = refl
none-find_first p (x ∷ xs) h = rw (h x Elem.here) (none-find_first p xs (λ a e. h a (Elem.there e)))

pub blocked_reason-none :
    (found otherwise : Option String)
    → (blocked_reason found otherwise ≡ none) ↔ ((found ≡ none) × (otherwise ≡ none))
blocked_reason-none none otherwise = (λ h. (refl, h), λ (_, h). h)
blocked_reason-none (some pattern) otherwise = (λ h. cc, λ (e, _). cc)

elevated_reason-none :
    (trim : String → String) (found : Option String)
    → elevated_reason trim found ≡ none
    → found ≡ none
elevated_reason-none trim none h = refl
elevated_reason-none trim (some pattern) h = cc

module _ (lower trim : String → String) where
  -- No blocked pattern occurs in the lowered command, and, without the permission for them, no
  -- elevated one stands at its start or behind a space.
  pub record IsSafe {Value : Type 0} (skill : ShellSkill Value) (command : String) : Type 0 where
    pub unblocked :
        (pattern : String) → Elem pattern blocked_patterns → ¬ Has (lower command) pattern
    pub plain :
        skill.allow_elevated ≡ false
        → (pattern : String) → Elem pattern elevated_commands
        → (¬ Begins (lower command) pattern) × (¬ Has (lower command) (" " ⧺ pattern))

  pub is_elevated-false :
      (pattern command : String)
      → (is_elevated command pattern ≡ false)
        ↔ ((¬ Begins command pattern) × (¬ Has command (" " ⧺ pattern)))
  unfolding is_elevated
  is_elevated-false pattern command =
      let at_start = starts_with-append_iff command pattern in
      let behind_space = contains_text_iff command (" " ⧺ pattern) in
      (
        λ h. (
          not_of_false (starts_with command pattern) at_start (ground arith),
          not_of_false (contains_text command (" " ⧺ pattern)) behind_space (ground arith),
        ),
        λ (h, k).
            rw
              (
                false_of_not (starts_with command pattern) at_start h,
                false_of_not (contains_text command (" " ⧺ pattern)) behind_space k,
              )
              refl,
      )

  IsSafe-check :
      {Value : Type 0} (skill : ShellSkill Value) (command : String)
      → check_safety lower trim skill command ≡ none
      → IsSafe skill command
  unfolding check_safety
  IsSafe-check skill command h =
      let (free, otherwise) = (blocked_reason-none _ _).0 h in
      record {
        unblocked = λ pattern e.
            not_of_false (contains_text (lower command) pattern)
              (contains_text_iff (lower command) pattern)
              (find_first-none (contains_text (lower command)) e free);
        plain = λ forbidden pattern e. (is_elevated-false pattern (lower command)).0 (
            find_first-none (is_elevated (lower command)) e
              (elevated_reason-none trim _ (else_of none forbidden otherwise)));
      }

  check-IsSafe :
      {Value : Type 0} (skill : ShellSkill Value) (command : String)
      → IsSafe skill command
      → check_safety lower trim skill command ≡ none
  unfolding check_safety
  check-IsSafe skill command safe = (blocked_reason-none _ _).1 (
    none-find_first (contains_text (lower command)) blocked_patterns (λ pattern e.
        false_of_not (contains_text (lower command) pattern)
          (contains_text_iff (lower command) pattern) (safe.unblocked pattern e)),
    elim (Bool-cases skill.allow_elevated) [
      | inl allowed ↦ rw allowed refl
      | inr forbidden ↦ rw forbidden (
          ap (elevated_reason trim) (
            none-find_first (is_elevated (lower command)) elevated_commands (λ pattern e.
              (is_elevated-false pattern (lower command)).1 (safe.plain forbidden pattern e))))
    ],
  )

  -- The safety check passes exactly the commands without the patterns that it names.
  pub check_safety_iff :
      {Value : Type 0} (skill : ShellSkill Value) (command : String)
      → (check_safety lower trim skill command ≡ none) ↔ IsSafe skill command
  check_safety_iff skill command = (IsSafe-check skill command, check-IsSafe skill command)

module _ {Value W : Type 0} (json : Json Value) (minus_one : Value) (host : Host W)
    (lower trim : String → String) where
  -- A call of the tool either fails without a change of the world, or starts the command, which is then
  -- safe, in a directory that exists if one is asked for, under a timeout of at most the skill's maximum.
  pub run_command-IsSafe :
      (skill : ShellSkill Value) (command : String) (working_dir : Option String)
      (timeout_secs : Option ℕ) (w : W)
      → let after =
          run_command json minus_one host lower trim skill command working_dir timeout_secs w in
        ((after.1 ≡ w) × (out : ToolOutput Value) × (after.0 ≡ some out) × (out.success ≡ false))
        ⊎ (IsSafe lower trim skill command
            × (is_missing json minus_one host lower trim working_dir w ≡ false)
            × (secs : ℕ) × (secs ≤ skill.max_timeout_secs)
            × (after.1 ≡ (host.output command working_dir secs w).1))
  unfolding run_command effective_timeout
  run_command-IsSafe skill command working_dir timeout_secs w =
      elim (Option-cases (check_safety lower trim skill command)) [
        | inr (reason, unsafe) ↦ inl (
          ground arith,
          blocked json minus_one host lower trim reason command,
          ground arith,
          refl,
        )
        | inl passed ↦ elim (Bool-cases (is_missing json minus_one host lower trim working_dir w)) [
          | inl missing ↦ inl (
            ground arith,
            no_directory json minus_one host lower trim
                (dir_text json minus_one host lower trim working_dir),
            ground arith,
            refl,
          )
          | inr there ↦ inr (
            IsSafe-check lower trim skill command passed,
            there,
            effective_timeout skill timeout_secs,
            min-le_right _ _,
            ground arith,
          )
        ]
      ]
