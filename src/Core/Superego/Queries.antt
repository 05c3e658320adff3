-- ===== src/Core/Superego/Queries.antt =====
-- `check_search_query_with_trace` of crates/orion-core/src/superego.rs.
use orion_dock.Prelude.{String, Bool, not, ◌&&◌, ◌||◌, List, [], ◌∷◌, if◌then◌else◌}
use orion_dock.Core.Superego.{
  Unicode, SuperegoVerdict, allow, deny, normalize_for_check, tokenize, contains_token,
  contains_any_token, contains_phrase,
}

-- A rule on the tokens of a query, with the verdict's rule and text.
pub record QueryRule : Type 0 where
  pub applies : List String → Bool
  pub rule : String
  pub text : String

abbrev address_text : String
address_text = "Query appears to seek someone's home address"

unfoldable pub is_residence_query : List String → Bool
unfolding contains_phrase
is_residence_query ts = contains_phrase ts ("where" ∷ "does" ∷ []) && contains_token ts "live"

unfoldable pub is_person_query : List String → Bool
unfolding contains_phrase
is_person_query ts =
    contains_phrase ts ("where" ∷ "do" ∷ [])
    && contains_token ts "live"
    && contains_any_token ts (
        "person" ∷ "someone" ∷ "neighbor" ∷ "neighbour" ∷ "ceo" ∷ "actor" ∷ "singer" ∷ "elon"
        ∷ "musk" ∷ "john" ∷ "jane" ∷ [])

unfoldable pub is_address_query : List String → Bool
unfolding contains_phrase
is_address_query ts =
    contains_phrase ts ("home" ∷ "address" ∷ "of" ∷ [])
    || contains_phrase ts ("home" ∷ "address" ∷ "for" ∷ [])

unfoldable pub is_phone_query : List String → Bool
unfolding contains_phrase
is_phone_query ts =
    (contains_phrase ts ("phone" ∷ "number" ∷ "of" ∷ [])
      || contains_phrase ts ("phone" ∷ "number" ∷ "for" ∷ []))
    && not
        (contains_any_token ts ("company" ∷ "business" ∷ "support" ∷ "customer" ∷ "service" ∷ []))

unfoldable pub is_ssn_query : List String → Bool
unfolding contains_phrase
is_ssn_query ts =
    contains_phrase ts ("social" ∷ "security" ∷ "number" ∷ [])
    || contains_phrase ts ("ssn" ∷ "of" ∷ [])
    || contains_phrase ts ("ssn" ∷ "for" ∷ [])

unfoldable pub is_financial_query : List String → Bool
unfolding contains_phrase
is_financial_query ts =
    contains_phrase ts ("credit" ∷ "card" ∷ "number" ∷ [])
    || contains_phrase ts ("bank" ∷ "account" ∷ "number" ∷ [])

unfoldable pub is_doxxing_query : List String → Bool
is_doxxing_query ts =
    contains_token ts "dox" || contains_token ts "doxx" || contains_token ts "doxxing"

unfoldable pub is_deanonymizing_query : List String → Bool
unfolding contains_phrase
is_deanonymizing_query ts =
    contains_phrase ts ("real" ∷ "name" ∷ "of" ∷ [])
    && (contains_token ts "anonymous" || contains_token ts "username")

-- The rules in the order of the code.
abbrev pub query_rules : List QueryRule
query_rules =
    record { applies = is_residence_query; rule = "PII_HOME_ADDRESS_V2"; text = address_text }
    ∷ record { applies = is_person_query; rule = "PII_HOME_ADDRESS_V2"; text = address_text }
    ∷ record { applies = is_address_query; rule = "PII_HOME_ADDRESS_V2"; text = address_text }
    ∷ record {
      applies = is_phone_query;
      rule = "PII_PHONE_V2";
      text = "Query appears to seek someone's personal phone number";
    }
    ∷ record {
      applies = is_ssn_query;
      rule = "PII_SSN_V2";
      text = "Query seeks Social Security information";
    }
    ∷ record {
      applies = is_financial_query;
      rule = "PII_FINANCIAL_V2";
      text = "Query seeks financial PII";
    }
    ∷ record {
      applies = is_doxxing_query;
      rule = "PII_DOXXING_V2";
      text = "Query contains doxxing language";
    }
    ∷ record {
      applies = is_deanonymizing_query;
      rule = "PII_DEANON_V2";
      text = "Query attempts to de-anonymize someone";
    }
    ∷ []

unfoldable pub judge_query : List QueryRule → List String → SuperegoVerdict
unfolding allow deny
judge_query [] tokens = allow
judge_query (r ∷ rs) tokens =
    let rest = judge_query rs tokens in
    if r.applies tokens then deny "PII_DOXXING" r.rule r.text else rest

unfoldable pub check_search_query : Unicode → String → SuperegoVerdict
unfolding judge_query tokenize normalize_for_check
check_search_query u query = judge_query query_rules (tokenize u (normalize_for_check u query))
