-- ===== src/Router/Routing/Classifier.antt =====
-- When the classifier's answer in crates/orion-router/src/router.rs denies a message.
use orion_dock.Prelude.{
  String, ◌≡◌, refl, ap, ◌∙◌, inl, inr, false, ◌&&◌, Option, none, some, arith, any, Elem, any-Elem,
  Elem-any, eq_iff, eq_refl, Bool-cases, ◌==◌, empty_text, trim, and_eq_true, Option-cases, All,
  elem-All, subst, then_of, else_of,
}
use orion_dock.Core.Superego.{Unicode}
use orion_dock.Router.Provider.{Result, ok, err, CompletionResponse}
use orion_dock.Router.Routing.{
  SuperegoResult, SuperegoL2Mode, Reader, allowlist_codes, or_text, judge_value, judge_answer,
  denial,
}

or_text-some :
    (o : Option String) (c : String) → empty_text c ≡ false → or_text "" o ≡ c → o ≡ some c
or_text-some none c solid h = let bad : empty_text "" ≡ false = ap empty_text h ∙ solid in cc
or_text-some (some s) c solid h = ap some h

codes-solid : All (λ c. empty_text c ≡ false) allowlist_codes
codes-solid = (refl, (refl, (refl, (refl, (refl, tt)))))

denial-deny :
    (mode : SuperegoL2Mode) (c : String) (code : Option String) (reason : String)
    → denial mode c ≡ SuperegoResult.deny code reason
    → (mode ≡ SuperegoL2Mode.enforce) × (code ≡ some c)
denial-deny SuperegoL2Mode.off c code reason h = cc
denial-deny SuperegoL2Mode.advise c code reason h = cc
denial-deny SuperegoL2Mode.enforce c code reason h = (refl, cc)

module _ {Value : Type 0} (u : Unicode) (upper : String → String) (json : Reader Value) where
  pub judge_value-deny :
      (mode : SuperegoL2Mode) (value : Value) (code : Option String) (reason : String)
      → judge_value u upper json mode value ≡ SuperegoResult.deny code reason
      → (mode ≡ SuperegoL2Mode.enforce)
        × (c : String) × (code ≡ some c)
        × (json.get_text "verdict" value ≡ some "DENY")
        × (json.get_text "code" value ≡ some c)
        × Elem c allowlist_codes
  judge_value-deny mode value code reason h =
      let found = or_text "" (json.get_text "code" value) in
      let denies = or_text "" (json.get_text "verdict" value) == "DENY" in
      elim (Bool-cases (denies && any (λ c. c == found) allowlist_codes)) [
        | inr other ↦ let bad = else_of _ other h in absurd cc
        | inl convicted ↦
            let (verdict, member) =
              and_eq_true denies (any (λ c. c == found) allowlist_codes) convicted in
            let (mode_is, code_is) = denial-deny mode found code reason (then_of _ convicted h) in
            let (c, listed, same) = any-Elem (λ c. c == found) allowlist_codes member in
            let listed' : Elem found allowlist_codes =
              subst (λ c. Elem c allowlist_codes) ((eq_iff c found).0 same) listed in
            (
              mode_is,
              found,
              code_is,
              or_text-some (json.get_text "verdict" value) "DENY" refl
                  ((eq_iff _ "DENY").0 verdict),
              or_text-some (json.get_text "code" value) found
                  (elem-All (λ c. empty_text c ≡ false) listed' codes-solid) refl,
              listed',
            )
      ]

  pub judge_answer-deny :
      (mode : SuperegoL2Mode) (answer : Result CompletionResponse) (code : Option String)
      (reason : String)
      → judge_answer u upper json mode answer ≡ SuperegoResult.deny code reason
      → (response : CompletionResponse) × (answer ≡ ok response)
        × (value : Value) × (json.parse (trim response.content) ≡ some value)
        × (judge_value u upper json mode value ≡ SuperegoResult.deny code reason)
  unfolding judge_answer
  judge_answer-deny mode (err e) code reason h = cc
  judge_answer-deny mode (ok response) code reason h =
      elim (Option-cases (json.parse (trim response.content))) [
        | inl none_there ↦ absurd (ground arith)
        | inr (value, parsed) ↦ (response, refl, value, parsed, ground arith)
      ]

  pub convicted-deny :
      (mode : SuperegoL2Mode) (value : Value) (code : String)
      → json.get_text "verdict" value ≡ some "DENY"
      → json.get_text "code" value ≡ some code
      → Elem code allowlist_codes
      → judge_value u upper json mode value ≡ denial mode code
  convicted-deny mode value code verdict named listed =
      let member = Elem-any (λ c. c == code) listed (eq_refl code) in
      rw (verdict, named, member) refl
