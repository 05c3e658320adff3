-- ===== src/Router/Governor/Returns.antt =====
-- The panics in the texts and the progress detection of crates/orion-router/src/governor.rs and
-- execution_state.rs: the keys of the failures.
use orion_dock.Prelude.{
  ℕ, zero, suc, ◌+◌, String, ◌≡◌, refl, ◌≢◌, ◌⊎◌, inl, inr, Bool, Option, none, some, List, [], ◌∷◌,
  reverse, ltb, Bool-cases, Option-cases, length, is_empty, take, keep, All, All-append,
}
use mathlib.Core.List.{reverse-cons}
use orion_dock.Skills.Failure.{StructuredFailure, kind_key}
use orion_dock.Router.Execution.{
  AttemptResult, Attempt, ExecutionState, detect_progress, kind_keys, failure_keys, recent,
  this_iteration, prior, after_loops, new_failures, all_criteria_met, repeated, is_success,
}
use orion_dock.Router.Prompts.{
  Message, augment_messages, diagnose, formulate_question, attempt_lines, attempts_block,
  format_state_summary, last_failure, unique_failures,
}
use orion_dock.Router.Governor.Loop.{Total, >>=-Total}

abbrev pub KeyedResult : AttemptResult → Type 0
KeyedResult (AttemptResult.success _) = Unit
KeyedResult (AttemptResult.failure f) = kind_key f ≢ none

abbrev pub Keyed : Attempt → Type 0
Keyed a = KeyedResult a.result

All-keep : {A : Type 0} (P : A → Type 0) (p : A → Bool) (xs : List A) → All P xs → All P (keep p xs)
All-keep P p [] h = tt
All-keep P p (x ∷ xs) h = elim (Bool-cases (p x)) [
  | inl yes' ↦ rw yes' ((h.0, All-keep P p xs h.1))
  | inr no' ↦ rw no' (All-keep P p xs h.1)
]

All-take : {A : Type 0} (P : A → Type 0) (n : ℕ) (xs : List A) → All P xs → All P (take n xs)
All-take P zero xs h = tt
All-take P (suc n) [] h = tt
All-take P (suc n) (x ∷ xs) h = (h.0, All-take P n xs h.1)

All-reverse : {A : Type 0} (P : A → Type 0) (xs : List A) → All P xs → All P (reverse xs)
All-reverse P [] h = tt
All-reverse P (x ∷ xs) h =
    rw (reverse-cons x xs) (All-append P (reverse xs) (x ∷ []) (All-reverse P xs h.1) (h.0, tt))

abbrev Cases : AttemptResult → Type 0
Cases r =
    ((s : String) × (r ≡ AttemptResult.success s))
    ⊎ ((f : StructuredFailure) × (k : String) × (r ≡ AttemptResult.failure f)
        × (kind_key f ≡ some k))

keyed-Cases : (r : AttemptResult) → KeyedResult r → Cases r
keyed-Cases (AttemptResult.success s) h = inl (s, refl)
keyed-Cases (AttemptResult.failure f) h = elim (Option-cases (kind_key f)) [
  | inl nothing ↦ absurd (h nothing)
  | inr (k, key) ↦ inr (f, k, refl, key)
]

failure_keys-Total : (l : List Attempt) → All Keyed l → Total (λ ks. Unit) (failure_keys l)
unfolding kind_keys
failure_keys-Total [] h = tt
failure_keys-Total (a ∷ l) h = elim (keyed-Cases a.result h.0) [
  | inl (s, won) ↦ rw (won, kind_keys) (failure_keys-Total l h.1)
  | inr (f, k, lost, key) ↦
      rw (lost, key, kind_keys)
        (>>=-Total (λ ks. Unit) (λ ks. Unit) (failure_keys l) _ (failure_keys-Total l h.1)
          λ ks q. tt)
]

attempt_lines-Total :
    (i : ℕ) (l : List Attempt) → All Keyed l → Total (λ t. Unit) (attempt_lines i l)
unfolding attempt_lines
attempt_lines-Total i [] h = tt
attempt_lines-Total i (a ∷ l) h = elim (keyed-Cases a.result h.0) [
  | inl (s, won) ↦
      rw (won, attempt_lines)
        (>>=-Total (λ ks. Unit) (λ ks. Unit) (attempt_lines (i + 1) l) _
          (attempt_lines-Total (i + 1) l h.1) λ ks q. tt)
  | inr (f, k, lost, key) ↦
      rw (lost, key, attempt_lines)
        (>>=-Total (λ ks. Unit) (λ ks. Unit) (attempt_lines (i + 1) l) _
          (attempt_lines-Total (i + 1) l h.1) λ ks q. tt)
]

last_failure-Total : (l : List Attempt) → All Keyed l → Total (λ t. Unit) (last_failure l)
last_failure-Total [] h = tt
last_failure-Total (a ∷ l) h = elim (keyed-Cases a.result h.0) [
  | inl (s, won) ↦ rw (won, last_failure) (last_failure-Total l h.1)
  | inr (f, k, lost, key) ↦ rw (lost, key, last_failure) tt
]

unique_failures-Total :
    (seen : List String) (l : List Attempt)
    → All Keyed l
    → Total (λ t. Unit) (unique_failures seen l)
unique_failures-Total seen [] h = tt
unique_failures-Total seen (a ∷ l) h = elim (keyed-Cases a.result h.0) [
  | inl (s, won) ↦ rw (won, unique_failures) (unique_failures-Total seen l h.1)
  | inr (f, k, lost, key) ↦
      rw (lost, key, unique_failures)
        (>>=-Total (λ ks. Unit) (λ ks. Unit) (unique_failures (k ∷ seen) l) _
          (unique_failures-Total (k ∷ seen) l h.1) λ ks q. tt)
]

module _ {Value : Type 0} (s : ExecutionState Value) (h : All Keyed s.attempts) where
  new_failures-Total : Total (λ p. Unit) (new_failures s)
  unfolding new_failures
  new_failures-Total =
      >>=-Total (λ ks. Unit) (λ p. Unit) (failure_keys (this_iteration s)) _
        (failure_keys-Total _ (All-keep Keyed _ s.attempts h))
        λ unique q.
          >>=-Total (λ ks. Unit) (λ p. Unit) (failure_keys (prior s)) _
            (failure_keys-Total _ (All-keep Keyed _ s.attempts h)) λ known q'. tt

  after_loops-Total : (k : Option String) → Total (λ p. Unit) (after_loops s k)
  unfolding after_loops
  after_loops-Total (some k) = tt
  after_loops-Total none = elim (Bool-cases (ltb 0 (length (keep is_success (this_iteration s))))) [
    | inl won ↦ rw (won, after_loops) tt
    | inr lost ↦ rw (lost, after_loops) new_failures-Total
  ]

  pub detect_progress-Total : Total (λ p. Unit) (detect_progress s)
  unfolding detect_progress
  detect_progress-Total = elim (Bool-cases (is_empty s.attempts)) [
    | inl idle ↦ rw (idle, detect_progress) tt
    | inr busy ↦ elim (Bool-cases (all_criteria_met s)) [
      | inl met ↦ rw (busy, met, detect_progress) tt
      | inr unmet ↦
          rw (busy, unmet, detect_progress)
            (>>=-Total (λ ks. Unit) (λ p. Unit) (failure_keys (recent s)) _
              (failure_keys-Total _
                (All-take Keyed 3 (reverse s.attempts) (All-reverse Keyed s.attempts h)))
              λ keys q. after_loops-Total (repeated keys))
    ]
  ]

  attempts_block-Total : (l : List Attempt) → All Keyed l → Total (λ t. Unit) (attempts_block l)
  attempts_block-Total [] k = tt
  attempts_block-Total (a ∷ l) k =
      >>=-Total (λ t. Unit) (λ t. Unit) (attempt_lines 0 (a ∷ l)) _
        (attempt_lines-Total 0 (a ∷ l) k) λ t q. tt

  module _ (debug : List String → String) where
    format_state_summary-Total : Total (λ t. Unit) (format_state_summary debug s)
    unfolding format_state_summary
    format_state_summary-Total =
        >>=-Total (λ t. Unit) (λ t. Unit) (attempts_block s.attempts) _
          (attempts_block-Total s.attempts h) λ t q. tt

    pub augment_messages-Total :
        (ms : List Message) → Total (λ t. Unit) (augment_messages debug ms s)
    unfolding augment_messages
    augment_messages-Total [] =
        >>=-Total (λ t. Unit) (λ t. Unit) (format_state_summary debug s) _
          format_state_summary-Total λ t q. tt
    augment_messages-Total (m ∷ ms) =
        >>=-Total (λ t. Unit) (λ t. Unit) (format_state_summary debug s) _
          format_state_summary-Total λ t q. tt

    pub formulate_question-Total : Total (λ t. Unit) (formulate_question debug s)
    unfolding formulate_question
    formulate_question-Total =
        >>=-Total (λ t. Unit) (λ t. Unit) (last_failure (reverse s.attempts)) _
          (last_failure-Total _ (All-reverse Keyed s.attempts h)) λ t q. tt

    pub diagnose-Total : Total (λ t. Unit) (diagnose debug s)
    unfolding diagnose
    diagnose-Total =
        >>=-Total (λ t. Unit) (λ t. Unit) (unique_failures [] s.attempts) _
          (unique_failures-Total [] s.attempts h) λ t q. tt
