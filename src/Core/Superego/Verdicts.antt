-- ===== src/Core/Superego/Verdicts.antt =====
-- When a message or a query is denied, and with which rule.
use orion_dock.Prelude.{
  Holds, or_iff, not_both, String, ◌≡◌, refl, ◌↔◌, ◌⊎◌, inl, inr, Bool, true, false, ◌||◌, List, [],
  ◌∷◌, if◌then◌else◌, Bool-cases, any,
}
use orion_dock.Core.Superego.{
  SuperegoVerdict, Unicode, allow, deny, is_malware_request, is_weapon_request, is_drug_request,
  is_injection, judge_message, check_user_message, tokenize, normalize_for_check,
}
use orion_dock.Core.Superego.Meaning.{
  AsksMalware, malware_iff, AsksWeapon, weapon_iff, AsksDrug, drug_iff, LiftsRules, injection_iff,
}
use orion_dock.Core.Superego.Questions.{
  SeeksPrivate, residence_iff, person_iff, address_iff, phone_iff, number_iff, account_iff, dox_iff,
  name_iff,
}
use orion_dock.Core.Superego.Queries.{QueryRule, judge_query, query_rules, check_search_query}

-- A verdict has reasons exactly when it denies.
abbrev pub WellFormed : SuperegoVerdict → Type 0
WellFormed v =
    ((v.allowed ≡ true) × (v ≡ allow))
    ⊎ ((v.allowed ≡ false) × ((c : String) × (r : String) × (t : String) × (v ≡ deny c r t)))

judge_query-denies :
    (rs : List QueryRule) (ts : List String)
    → ((judge_query rs ts).allowed ≡ false) ↔ (any (λ r. r.applies ts) rs ≡ true)
unfolding judge_query allow deny
judge_query-denies [] ts = (λ e. cc, λ e. cc)
judge_query-denies (r ∷ rs) ts = elim (Bool-cases (r.applies ts)) [
  | inl hit ↦ rw (hit, judge_query, any) ((λ e. refl, λ e. refl))
  | inr miss ↦ rw (miss, judge_query, any) (judge_query-denies rs ts)
]

no_rule : {P : Type 0} (b : Bool) → Holds b P → Holds (b || false) P
no_rule true h = h
no_rule false h = h

rules_iff : (ts : List String) → Holds (any (λ r. r.applies ts) query_rules) (SeeksPrivate ts)
rules_iff ts = or_iff _ _ (residence_iff ts) (
    or_iff _ _ (person_iff ts) (
      or_iff _ _ (address_iff ts) (
        or_iff _ _ (phone_iff ts) (
          or_iff _ _ (number_iff ts)
            (or_iff _ _ (account_iff ts) (or_iff _ _ (dox_iff ts) (no_rule _ (name_iff ts))))))))

-- A query is denied exactly when its words seek where someone lives, a home address, a phone number
-- that is no company's, a social security number, a card or an account, speak of doxxing, or seek the
-- name behind a user name.
pub check_search_query-denies_iff :
    (u : Unicode) (query : String)
    → ((check_search_query u query).allowed ≡ false)
      ↔ SeeksPrivate (tokenize u (normalize_for_check u query))
unfolding check_search_query
check_search_query-denies_iff u query =
    let ts = tokenize u (normalize_for_check u query) in
    let denied = judge_query-denies query_rules ts in
    (λ h. (rules_iff ts).0 (denied.0 h), λ h. denied.1 ((rules_iff ts).1 h))

judge_query-WellFormed : (rs : List QueryRule) (ts : List String) → WellFormed (judge_query rs ts)
unfolding judge_query allow deny
judge_query-WellFormed [] ts = inl (refl, refl)
judge_query-WellFormed (r ∷ rs) ts = elim (Bool-cases (r.applies ts)) [
  | inl hit ↦ rw (hit, judge_query) (inr (refl, ("PII_DOXXING", r.rule, r.text, refl)))
  | inr miss ↦ rw (miss, judge_query) (judge_query-WellFormed rs ts)
]

-- A query's verdict allows without reasons or denies with a code, a rule and a text.
pub check_search_query-WellFormed :
    (u : Unicode) (query : String) → WellFormed (check_search_query u query)
unfolding check_search_query
check_search_query-WellFormed u query =
    judge_query-WellFormed query_rules (tokenize u (normalize_for_check u query))

-- Of four rules in order, one denies exactly when one applies.
first_rule :
    (a b c d : Bool) (v w x y z : SuperegoVerdict)
    → v.allowed ≡ false
    → w.allowed ≡ false
    → x.allowed ≡ false
    → y.allowed ≡ false
    → z.allowed ≡ true
    → ((if a then v else if b then w else if c then x else if d then y else z).allowed ≡ false)
      ↔ (((a || b) || (c || d)) ≡ true)
first_rule true b c d v w x y z hv hw hx hy hz = (λ e. refl, λ e. hv)
first_rule false true c d v w x y z hv hw hx hy hz = (λ e. refl, λ e. hw)
first_rule false false true d v w x y z hv hw hx hy hz = (λ e. refl, λ e. hx)
first_rule false false false true v w x y z hv hw hx hy hz = (λ e. refl, λ e. hy)
first_rule false false false false v w x y z hv hw hx hy hz = (λ e. absurd (not_both hz e), λ e. cc)

module _ (u : Unicode) (message : String) where
  abbrev tokens : List String
  tokens = tokenize u (normalize_for_check u message)

  -- A message is denied exactly when its words ask for malicious software, a weapon or an illegal drug to
  -- be made, or try to lift the rules.
  pub check_user_message-denies_iff :
      ((check_user_message u message).allowed ≡ false)
      ↔ ((AsksMalware tokens ⊎ AsksWeapon tokens) ⊎ (AsksDrug tokens ⊎ LiftsRules tokens))
  unfolding check_user_message judge_message
  check_user_message-denies_iff =
      let first =
        first_rule (is_malware_request tokens) (is_weapon_request tokens) (is_drug_request tokens)
          (is_injection tokens) _ _ _ _ _ refl refl refl refl refl in
      let meant =
        or_iff _ _ (or_iff _ _ (malware_iff tokens) (weapon_iff tokens))
          (or_iff _ _ (drug_iff tokens) (injection_iff tokens)) in
      (λ h. meant.0 (first.0 h), λ h. first.1 (meant.1 h))
