-- ===== src/Core/Superego/Questions.antt =====
-- What the rules on searches of crates/orion-core/src/superego.rs look for, stated by words and phrases.
use orion_dock.Prelude.{Holds, and_iff, or_iff, not_iff, String, refl, ◌⊎◌, List, [], ◌∷◌, Elem}
use orion_dock.Core.Superego.Queries.{
  is_residence_query, is_person_query, is_address_query, is_phone_query, is_ssn_query,
  is_financial_query, is_doxxing_query, is_deanonymizing_query,
}
use orion_dock.Core.Superego.Meaning.{
  Phrase, contains_phrase-Phrase, word_iff, SomeWord, contains_any_token-SomeWord,
}

-- Where someone lives
abbrev pub SeeksResidence : List String → Type 0
SeeksResidence ts = Phrase ts ("where" ∷ "does" ∷ []) × Elem "live" ts

abbrev pub SeeksPerson : List String → Type 0
SeeksPerson ts =
    (Phrase ts ("where" ∷ "do" ∷ []) × Elem "live" ts)
    × SomeWord ts (
        "person" ∷ "someone" ∷ "neighbor" ∷ "neighbour" ∷ "ceo" ∷ "actor" ∷ "singer" ∷ "elon"
        ∷ "musk" ∷ "john" ∷ "jane" ∷ [])

abbrev pub SeeksAddress : List String → Type 0
SeeksAddress ts =
    Phrase ts ("home" ∷ "address" ∷ "of" ∷ []) ⊎ Phrase ts ("home" ∷ "address" ∷ "for" ∷ [])

-- A phone number, a company's apart
abbrev pub SeeksPhone : List String → Type 0
SeeksPhone ts =
    (Phrase ts ("phone" ∷ "number" ∷ "of" ∷ []) ⊎ Phrase ts ("phone" ∷ "number" ∷ "for" ∷ []))
    × (¬ SomeWord ts ("company" ∷ "business" ∷ "support" ∷ "customer" ∷ "service" ∷ []))

abbrev pub SeeksNumber : List String → Type 0
SeeksNumber ts =
    (Phrase ts ("social" ∷ "security" ∷ "number" ∷ []) ⊎ Phrase ts ("ssn" ∷ "of" ∷ []))
    ⊎ Phrase ts ("ssn" ∷ "for" ∷ [])

abbrev pub SeeksAccount : List String → Type 0
SeeksAccount ts =
    Phrase ts ("credit" ∷ "card" ∷ "number" ∷ []) ⊎ Phrase ts ("bank" ∷ "account" ∷ "number" ∷ [])

abbrev pub SaysDox : List String → Type 0
SaysDox ts = (Elem "dox" ts ⊎ Elem "doxx" ts) ⊎ Elem "doxxing" ts

-- The name behind a user name
abbrev pub SeeksName : List String → Type 0
SeeksName ts = Phrase ts ("real" ∷ "name" ∷ "of" ∷ []) × (Elem "anonymous" ts ⊎ Elem "username" ts)

pub residence_iff : (ts : List String) → Holds (is_residence_query ts) (SeeksResidence ts)
unfolding is_residence_query
residence_iff ts =
    and_iff _ _ (contains_phrase-Phrase ts ("where" ∷ "does" ∷ []) refl) (word_iff ts "live")

pub person_iff : (ts : List String) → Holds (is_person_query ts) (SeeksPerson ts)
unfolding is_person_query
person_iff ts =
    and_iff _ _
      (and_iff _ _ (contains_phrase-Phrase ts ("where" ∷ "do" ∷ []) refl) (word_iff ts "live"))
      (contains_any_token-SomeWord ts _)

pub address_iff : (ts : List String) → Holds (is_address_query ts) (SeeksAddress ts)
unfolding is_address_query
address_iff ts =
    or_iff _ _ (contains_phrase-Phrase ts ("home" ∷ "address" ∷ "of" ∷ []) refl)
      (contains_phrase-Phrase ts ("home" ∷ "address" ∷ "for" ∷ []) refl)

pub phone_iff : (ts : List String) → Holds (is_phone_query ts) (SeeksPhone ts)
unfolding is_phone_query
phone_iff ts =
    and_iff _ _
      (or_iff _ _ (contains_phrase-Phrase ts ("phone" ∷ "number" ∷ "of" ∷ []) refl)
        (contains_phrase-Phrase ts ("phone" ∷ "number" ∷ "for" ∷ []) refl))
      (not_iff _ (contains_any_token-SomeWord ts _))

pub number_iff : (ts : List String) → Holds (is_ssn_query ts) (SeeksNumber ts)
unfolding is_ssn_query
number_iff ts =
    or_iff _ _
      (or_iff _ _ (contains_phrase-Phrase ts ("social" ∷ "security" ∷ "number" ∷ []) refl)
        (contains_phrase-Phrase ts ("ssn" ∷ "of" ∷ []) refl))
      (contains_phrase-Phrase ts ("ssn" ∷ "for" ∷ []) refl)

pub account_iff : (ts : List String) → Holds (is_financial_query ts) (SeeksAccount ts)
unfolding is_financial_query
account_iff ts =
    or_iff _ _ (contains_phrase-Phrase ts ("credit" ∷ "card" ∷ "number" ∷ []) refl)
      (contains_phrase-Phrase ts ("bank" ∷ "account" ∷ "number" ∷ []) refl)

pub dox_iff : (ts : List String) → Holds (is_doxxing_query ts) (SaysDox ts)
unfolding is_doxxing_query
dox_iff ts =
    or_iff _ _ (or_iff _ _ (word_iff ts "dox") (word_iff ts "doxx")) (word_iff ts "doxxing")

pub name_iff : (ts : List String) → Holds (is_deanonymizing_query ts) (SeeksName ts)
unfolding is_deanonymizing_query
name_iff ts =
    and_iff _ _ (contains_phrase-Phrase ts ("real" ∷ "name" ∷ "of" ∷ []) refl)
      (or_iff _ _ (word_iff ts "anonymous") (word_iff ts "username"))

-- A query that seeks something about a person
abbrev pub SeeksPrivate : List String → Type 0
SeeksPrivate ts =
    SeeksResidence ts
    ⊎ (SeeksPerson ts
        ⊎ (SeeksAddress ts
            ⊎ (SeeksPhone ts ⊎ (SeeksNumber ts ⊎ (SeeksAccount ts ⊎ (SaysDox ts ⊎ SeeksName ts))))))
