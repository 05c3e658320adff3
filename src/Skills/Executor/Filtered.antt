-- ===== src/Skills/Executor/Filtered.antt =====
-- What becomes of a text in which every `tool_request` is replaced.
use Prim.Native.Char.{Char}
use text.Mathlib.TextLemmas.{nil-append, cons-append}
use orion_dock.Prelude.{
  not_of_false, replace_from, replace_from, ℕ, zero, suc, String, ◌≡◌, sym, ap, ◌∙◌, subst, inl,
  inr, ◌⧺◌, starts_with, replace_text, skip_chars, Bool-cases,
}
use orion_dock.Affixes.{starts_with-append_iff}

-- Each mention is replaced, from the left, and the other characters stay.
pub data Filtered : String → String → Type 0 where
  empty : Filtered "" ""
  kept :
      (c : Char) (s t : String)
      → ¬ ((r : String) × (String.◌∷◌ c s ≡ "tool_request" ⧺ r))
      → Filtered s t
      → Filtered (String.◌∷◌ c s) (String.◌∷◌ c t)
  mention : (s t : String) → Filtered s t → Filtered ("tool_request" ⧺ s) ("[filtered]" ⧺ t)

size : String → ℕ
size String.[] = zero
size (String.◌∷◌ c s) = suc (size s)

skip-append : (t r : String) → skip_chars (size t) (t ⧺ r) ≡ r
unfolding skip_chars size
skip-append String.[] r = nil-append r
skip-append (String.◌∷◌ c t) r = rw (cons-append c t r) (skip-append t r)

replace_from-Filtered :
    (n : ℕ) (s : String) → Filtered (skip_chars n s) (replace_from "tool_request" "[filtered]" n s)
unfolding skip_chars replace_from size
replace_from-Filtered zero String.[] = Filtered.empty
replace_from-Filtered (suc n) String.[] = Filtered.empty
replace_from-Filtered (suc n) (String.◌∷◌ c s) = replace_from-Filtered n s
replace_from-Filtered zero (String.◌∷◌ c s) =
    elim (Bool-cases (starts_with (String.◌∷◌ c s) "tool_request")) [
      | inl here ↦
          let (r, e) = (starts_with-append_iff (String.◌∷◌ c s) "tool_request").0 here in
          let rest : skip_chars 11 s ≡ r = ap (skip_chars 12) e ∙ skip-append "tool_request" r in
          rw here (
            subst (λ u. Filtered u ("[filtered]" ⧺ replace_from "tool_request" "[filtered]" 11 s))
              (sym (e ∙ ap (λ u. "tool_request" ⧺ u) (sym rest)))
              (Filtered.mention _ _ (replace_from-Filtered 11 s)))
      | inr elsewhere ↦ rw elsewhere (
          Filtered.kept c s _
            (not_of_false (starts_with (String.◌∷◌ c s) "tool_request")
              (starts_with-append_iff (String.◌∷◌ c s) "tool_request") elsewhere)
            (replace_from-Filtered zero s))
    ]

pub replace_text-Filtered : (s : String) → Filtered s (replace_text "tool_request" "[filtered]" s)
unfolding replace_text skip_chars
replace_text-Filtered s = replace_from-Filtered zero s
