-- ===== src/Tools/Install/Names.antt =====
-- The names of packages and of scripts in skills/skill-cooperative-install/src/lib.rs.
use Prim.Native.Char.{Char, code}
use orion_dock.Prelude.{
  ◌≤◌, ◌⊎◌, Holds, and_iff, or_iff, leb_iff, eqb_iff, ℕ, String, ◌≡◌, refl, Bool, true, false, ◌&&◌,
  ◌||◌, leb, eqb, arith, empty_text,
}
use orion_dock.Tools.Install.{
  validate_package_chars, Ascii, is_alphanumeric, drop_dashes, drop_last_dashes, or_script, dashed,
  sanitize_name,
}

abbrev pub is_name_char : ℕ → Bool
is_name_char c = (leb b'0' c && leb c b'9') || (leb b'a' c && leb c b'z') || eqb c b'-'

unfoldable pub all_name_chars : String → Bool
all_name_chars String.[] = true
all_name_chars (String.◌∷◌ c s) = let rest = all_name_chars s in is_name_char (code c) && rest

-- Letters are lowered and digits stay.
abbrev pub Lowers : Ascii → Type 0
Lowers ascii =
    (c : Char) → is_alphanumeric (code c) ≡ true → is_name_char (code (ascii.lower_char c)) ≡ true

-- Lower case letters, digits and dashes, at least one.
abbrev pub IsClean : String → Type 0
IsClean name = (empty_text name ≡ false) × (all_name_chars name ≡ true)

drop_dashes-IsClean : (s : String) → all_name_chars s ≡ true → all_name_chars (drop_dashes s) ≡ true
unfolding all_name_chars drop_dashes
drop_dashes-IsClean String.[] h = refl
drop_dashes-IsClean (String.◌∷◌ c s) h = ground (arith, drop_dashes-IsClean s)

drop_last_dashes-IsClean :
    (s : String) → all_name_chars s ≡ true → all_name_chars (drop_last_dashes s) ≡ true
unfolding all_name_chars drop_last_dashes
drop_last_dashes-IsClean String.[] h = refl
drop_last_dashes-IsClean (String.◌∷◌ c s) h = ground (arith, drop_last_dashes-IsClean s)

or_script-IsClean : (s : String) → all_name_chars s ≡ true → IsClean (or_script s)
unfolding all_name_chars
or_script-IsClean String.[] h = (refl, refl)
or_script-IsClean (String.◌∷◌ c s) h = (refl, h)

module _ (ascii : Ascii) (lowers : Lowers ascii) where
  dashed-IsClean :
      (previous_dash : Bool) (s : String) → all_name_chars (dashed ascii previous_dash s) ≡ true
  unfolding all_name_chars dashed
  dashed-IsClean previous_dash String.[] = refl
  dashed-IsClean previous_dash (String.◌∷◌ c s) =
      ground (arith, dashed-IsClean false s, dashed-IsClean true s, lowers c)

  -- A sanitized name has lower case letters, digits and dashes only, and at least one of them.
  pub sanitize_name-IsClean : (raw : String) → IsClean (sanitize_name ascii raw)
  unfolding sanitize_name
  sanitize_name-IsClean raw =
      or_script-IsClean _
        (drop_last_dashes-IsClean _ (drop_dashes-IsClean _ (dashed-IsClean false raw)))

-- A letter, a digit or one of seven signs
abbrev pub IsPackageChar : ℕ → Type 0
IsPackageChar c =
    (((((((((((b'0' ≤ c) × (c ≤ b'9')) ⊎ ((b'A' ≤ c) × (c ≤ b'Z'))) ⊎ ((b'a' ≤ c) × (c ≤ b'z')))
                  ⊎ (c ≡ b'.'))
                ⊎ (c ≡ b'-'))
              ⊎ (c ≡ b'_'))
            ⊎ (c ≡ b'+'))
          ⊎ (c ≡ b':'))
        ⊎ (c ≡ b'/'))
      ⊎ (c ≡ b'@'))

abbrev pub AllPackageChars : String → Type 0
AllPackageChars String.[] = Unit
AllPackageChars (String.◌∷◌ c s) = IsPackageChar (code c) × AllPackageChars s

pub validate_package_chars_iff : (s : String) → Holds (validate_package_chars s) (AllPackageChars s)
unfolding validate_package_chars
validate_package_chars_iff String.[] = (λ h. tt, λ h. refl)
validate_package_chars_iff (String.◌∷◌ c s) =
    let n = code c in
    and_iff _ _
      (or_iff _ _
        (or_iff _ _
          (or_iff _ _
            (or_iff _ _
              (or_iff _ _
                (or_iff _ _
                  (or_iff _ _
                    (or_iff _ _
                      (or_iff _ _ (and_iff _ _ (leb_iff b'0' n) (leb_iff n b'9'))
                        (and_iff _ _ (leb_iff b'A' n) (leb_iff n b'Z')))
                      (and_iff _ _ (leb_iff b'a' n) (leb_iff n b'z')))
                    (eqb_iff n b'.'))
                  (eqb_iff n b'-'))
                (eqb_iff n b'_'))
              (eqb_iff n b'+'))
            (eqb_iff n b':'))
          (eqb_iff n b'/'))
        (eqb_iff n b'@'))
      (validate_package_chars_iff s)

-- A name that is passed to a package manager
abbrev pub IsPackage : String → Type 0
IsPackage pkg = (empty_text pkg ≡ false) × AllPackageChars pkg
