-- ===== src/Prelude/Texts.antt =====
-- Rust's `&str` operations that the program uses, over the native `String`.
use Prim.Native.Char.{code}
use Prim.Native.Nat.{ℕ, zero, suc, ◌-◌, ◌/◌, ◌%◌}
use Prim.Native.String.{String, [], ◌∷◌, ◌++◌, count}
use mathlib.Core.List.{List}
use mathlib.Core.Bool.{Bool, true, false, ◌&&◌, ◌||◌}
pub use text.Mathlib.Text.{◌==◌, starts_with, is_char_boundary}
use orion_dock.Prelude.Tests.{ltb, leb, eqb, if◌then◌else◌}

infixr 65 ◌⧺◌
-- `+` and `format!` on texts.
abbrev pub ◌⧺◌ : String → String → String
s ⧺ t = s ++ t

abbrev pub empty_text : String → Bool
empty_text [] = true
empty_text (c ∷ s) = false

-- `s.ends_with(t)`
unfoldable pub ends_with : String → String → Bool
ends_with [] t = empty_text t
ends_with (c ∷ s) t = (c ∷ s) == t || ends_with s t

-- `s.contains(t)` for a text `t`
unfoldable pub contains_text : String → String → Bool
contains_text [] t = empty_text t
contains_text (c ∷ s) t = starts_with (c ∷ s) t || contains_text s t

-- `s.split(c).next()`: what stands before the first `c`
unfoldable pub before_char : ℕ → String → String
before_char b [] = ""
before_char b (c ∷ s) = let rest = before_char b s in if eqb (code c) b then "" else c ∷ rest

-- `s.replace(a, t)` for a character `a`
unfoldable pub replace_char : ℕ → String → String → String
replace_char a t [] = ""
replace_char a t (c ∷ s) =
    let rest = replace_char a t s in if eqb (code c) a then t ++ rest else c ∷ rest

-- `s.chars().take(n).collect()`
unfoldable pub take_chars : ℕ → String → String
take_chars zero s = ""
take_chars (suc n) [] = ""
take_chars (suc n) (c ∷ s) = c ∷ take_chars n s

-- `&s[n..]`, for a text whose first `n` characters have one byte each
unfoldable pub skip_chars : ℕ → String → String
skip_chars zero s = s
skip_chars (suc n) [] = ""
skip_chars (suc n) (c ∷ s) = skip_chars n s

-- `parts.join(sep)`
unfoldable pub join : String → List String → String
join sep List.[] = ""
join sep (List.◌∷◌ p List.[]) = p
join sep (List.◌∷◌ p (List.◌∷◌ q ps)) = p ++ (sep ++ join sep (List.◌∷◌ q ps))

abbrev digit : ℕ → String
digit zero = "0"
digit (suc zero) = "1"
digit (suc (suc zero)) = "2"
digit (suc (suc (suc zero))) = "3"
digit (suc (suc (suc (suc zero)))) = "4"
digit (suc (suc (suc (suc (suc zero))))) = "5"
digit (suc (suc (suc (suc (suc (suc zero)))))) = "6"
digit (suc (suc (suc (suc (suc (suc (suc zero))))))) = "7"
digit (suc (suc (suc (suc (suc (suc (suc (suc zero)))))))) = "8"
digit _ = "9"

decimal_from : ℕ → ℕ → String → String
decimal_from zero n tail = tail
decimal_from (suc fuel) n tail =
    let more = decimal_from fuel (n / 10) (digit (n % 10) ++ tail) in
    if ltb n 10 then digit n ++ tail else more

-- `n.to_string()`; a number has fewer digits than `n + 1`.
unfoldable pub decimal : ℕ → String
unfolding decimal_from
decimal n = decimal_from (suc n) n ""

-- The rest of a replacement: `skip` characters of a match are still to be passed over.
unfoldable pub replace_from : String → String → ℕ → String → String
replace_from pat t skip [] = ""
replace_from pat t (suc skip) (c ∷ s) = replace_from pat t skip s
replace_from pat t zero (c ∷ s) =
    let hit = t ++ replace_from pat t (count pat - 1) s in
    let miss = c ∷ replace_from pat t zero s in if starts_with (c ∷ s) pat then hit else miss

-- `s.replace(pat, t)` for a text `pat` that is not empty
unfoldable pub replace_text : String → String → String → String
unfolding replace_from
replace_text pat t s = replace_from pat t zero s

-- The pieces of a `format!`, put together.
unfoldable pub concat : List String → String
concat List.[] = ""
concat (List.◌∷◌ p ps) = p ++ concat ps

-- Unicode's `White_Space`, as `char::is_whitespace`.
abbrev is_whitespace : ℕ → Bool
is_whitespace c =
    (leb 9 c && leb c 13)
    || eqb c 32
    || eqb c 0x85
    || eqb c 0xA0
    || eqb c 0x1680
    || (leb 0x2000 c && leb c 0x200A)
    || eqb c 0x2028
    || eqb c 0x2029
    || eqb c 0x202F
    || eqb c 0x205F
    || eqb c 0x3000

-- `s.trim().is_empty()`
unfoldable pub is_blank : String → Bool
is_blank [] = true
is_blank (c ∷ s) = is_whitespace (code c) && is_blank s

unfoldable pub trim_start : String → String
trim_start [] = ""
trim_start (c ∷ s) = let rest = trim_start s in if is_whitespace (code c) then rest else c ∷ s

unfoldable pub trim_end : String → String
trim_end [] = ""
trim_end (c ∷ s) =
    let rest = trim_end s in if is_whitespace (code c) && empty_text rest then "" else c ∷ rest

-- `s.trim()`
unfoldable pub trim : String → String
unfolding trim_start trim_end
trim s = trim_end (trim_start s)
