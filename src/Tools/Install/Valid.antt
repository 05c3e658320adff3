-- ===== src/Tools/Install/Valid.antt =====
-- What skills/skill-cooperative-install/src/lib.rs accepts as packages and as commands of a script.
use orion_dock.Tools.Shell.Safety.{Has, find_first-none}
use orion_dock.Affixes.{contains_text_iff}
use orion_dock.Prelude.{
  concat, sym, ◌∙◌, map, trim, Elem, not_of_false, contains_text, String, ◌≡◌, refl, subst, inl,
  inr, true, false, Option, none, some, List, [], ◌∷◌, arith, All, empty_text, ◌⊎◌,
}
use orion_dock.Tools.Install.{
  Ascii, Checked, ScriptStepInput, validate_package_chars, validate_package_name,
  validate_safe_command, blocked_script_patterns,
}
use orion_dock.Tools.Install.Names.{IsPackage, validate_package_chars_iff}
use orion_dock.Tools.Install.Flow.{validate_packages}

pub validate_package_name-ok :
    (name pkg : String)
    → validate_package_name name ≡ Checked.ok pkg
    → IsPackage pkg × (pkg ≡ trim name)
unfolding validate_package_name
validate_package_name-ok name pkg h =
    let full : empty_text (trim name) ≡ false = ground arith in
    let plain : validate_package_chars (trim name) ≡ true = ground arith in
    let same : pkg ≡ trim name = ground arith in
    (subst IsPackage (sym same) (full, (validate_package_chars_iff (trim name)).0 plain), same)

pub cons-eq : {a b : String} {l m : List String} → a ≡ b → l ≡ m → (a ∷ l) ≡ (b ∷ m)
cons-eq e f = cc

pub ok-injective : {A : Type 0} {a b : A} → Checked.ok a ≡ Checked.ok b → a ≡ b
ok-injective h = cc

pub Checked-cases :
    {A : Type 0} (c : Checked A)
    → ((a : A) × (c ≡ Checked.ok a)) ⊎ ((e : String) × (c ≡ Checked.err e))
Checked-cases (Checked.ok a) = inl (a, refl)
Checked-cases (Checked.err e) = inr (e, refl)

pub validate_packages-ok :
    (names pkgs : List String)
    → validate_packages names ≡ Checked.ok pkgs
    → All IsPackage pkgs × (pkgs ≡ map trim names)
unfolding validate_packages
validate_packages-ok [] pkgs h = (subst (All IsPackage) (ok-injective h) tt, sym (ok-injective h))
validate_packages-ok (name ∷ names) pkgs h = elim (Checked-cases (validate_package_name name)) [
  | inr (e, bad) ↦ absurd (ground arith)
  | inl (pkg, good) ↦ elim (Checked-cases (validate_packages names)) [
    | inr (e, bad) ↦ absurd (ground arith)
    | inl (rest, more) ↦
        let same : Checked.ok (pkg ∷ rest) ≡ Checked.ok pkgs = ground arith in
        let (valid, trimmed) = validate_package_name-ok name pkg good in
        let (valid_rest, trimmed_rest) = validate_packages-ok names rest more in
        (
          subst (All IsPackage) (ok-injective same) (valid, valid_rest),
          sym (ok-injective same) ∙ cons-eq trimmed trimmed_rest,
        )
  ]
]

-- No blocked pattern occurs in the lowered command.
abbrev pub Harmless : Ascii → String → Type 0
Harmless ascii command =
    (pattern : String)
    → Elem pattern blocked_script_patterns
    → ¬ Has (ascii.to_lowercase command) pattern

abbrev pub AllHarmless : Ascii → List ScriptStepInput → List String → Type 0
AllHarmless ascii steps checks =
    All (λ (step : ScriptStepInput). Harmless ascii step.command) steps
    × All (Harmless ascii) checks

pub no_pattern :
    (found : Option String) (command : String) (u : Unit)
    → (elim found [
      | none ↦ Checked.ok tt
      | some blocked ↦
          Checked.err
            (concat ("Command contains blocked pattern '" ∷ blocked ∷ "': " ∷ command ∷ []))
    ])
      ≡ Checked.ok u
    → found ≡ none
no_pattern none command u h = refl
no_pattern (some blocked) command u h = cc

pub validate_safe_command-Harmless :
    (ascii : Ascii) (command : String) (u : Unit)
    → validate_safe_command ascii command ≡ Checked.ok u
    → Harmless ascii command
unfolding validate_safe_command
validate_safe_command-Harmless ascii command u h pattern e =
    not_of_false (contains_text (ascii.to_lowercase command) pattern)
      (contains_text_iff (ascii.to_lowercase command) pattern)
      (find_first-none (contains_text (ascii.to_lowercase command)) e (no_pattern _ command u h))
