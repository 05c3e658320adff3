-- ===== src/Router/Execution/Detection.antt =====
-- What `detect_progress` tells of the attempts that it was given.
use mathlib.Core.Option.{some-injective}
use orion_dock.Prelude.{
  then_of, else_of, ◌≤◌, String, ◌≡◌, refl, sym, ap, ◌∙◌, subst, ◌≢◌, ◌↔◌, inl, inr, true, false,
  not, ◌&&◌, Option, none, some, List, [], ◌∷◌, reverse, arith, eq_iff, ltb, Bool-cases,
  and_eq_true, length, is_empty, take, all, keep, All, All-mono, ◌==◌,
}
use orion_dock.Router.Execution.{
  >>=-eq-some, >>=-eq-some, >>=-eq-some, >>=-eq-some, >>=-eq-some, >>=-eq-some, >>=-eq-some,
  Attempt, Progress, ExecutionState, after_loops, all_criteria_met, all_equal, detect_progress,
  failure_keys, has_key, is_success, kind_keys, new_failures, prior, recent, repeated,
  this_iteration,
}

same_as_trans : (j k : String) (l : List String) → j ≡ k → All (λ i. i ≡ k) l → All (λ i. i ≡ j) l
same_as_trans j k l e = All-mono (λ i. i ≡ k) (λ i. i ≡ j) l (λ i h. h ∙ sym e)

all_equal_iff : (k : String) (l : List String) → (all_equal (k ∷ l) ≡ true) ↔ All (λ j. j ≡ k) l
all_equal_iff k [] = (λ e. tt, λ e. refl)
all_equal_iff k (j ∷ l) = (
  (λ e.
      let (same, rest) = and_eq_true (k == j) (all_equal (j ∷ l)) e in
      let kj = (eq_iff k j).0 same in
      (sym kj, same_as_trans k j l kj ((all_equal_iff j l).0 rest))),
  (λ h.
      let kj = sym h.0 in
      rw ((eq_iff k j).1 kj, all_equal) ((all_equal_iff j l).1 (same_as_trans j k l h.0 h.1))),
)

repeated_iff :
    (l : List String) (k : String) → (repeated l ≡ some k) ↔ ((2 ≤ length l) × All (λ j. j ≡ k) l)
repeated_iff [] k = (λ e. cc, λ h. absurd (omega (arith, h.0)))
repeated_iff (i ∷ []) k = (λ e. cc, λ h. absurd (omega (arith, h.0)))
repeated_iff (i ∷ j ∷ l) k = (
  (λ e. elim (Bool-cases (all_equal (i ∷ j ∷ l))) [
    | inl same ↦
        let ik : i ≡ k = some-injective i k (then_of _ same e) in
        (omega arith, (ik, same_as_trans k i (j ∷ l) (sym ik) ((all_equal_iff i (j ∷ l)).0 same)))
    | inr mixed ↦ let no' = else_of _ mixed e in cc
  ]),
  (λ h.
      rw ((all_equal_iff i (j ∷ l)).1 (same_as_trans i k (j ∷ l) h.1.0 h.1.1), repeated)
        (ap some h.1.0)),
)

module _ {Value : Type 0} (s : ExecutionState Value) where
  -- The last three attempts have at least two failures, and all of them have the key.
  abbrev pub Repeats : String → Type 0
  Repeats k =
      (keys : List String) × (failure_keys (recent s) ≡ some keys)
      × (2 ≤ length keys)
      × All (λ j. j ≡ k) keys

  empty-nil : (l : List Attempt) → is_empty l ≡ true → l ≡ []
  empty-nil [] e = refl
  empty-nil (a ∷ l) e = cc

  busy-Repeats : {k : String} → Repeats k → is_empty s.attempts ≡ false
  unfolding kind_keys
  busy-Repeats (keys, e, two, same) = elim (Bool-cases (is_empty s.attempts)) [
    | inr busy ↦ busy
    | inl idle ↦
        let e' =
          subst (λ l. failure_keys (take 3 (reverse l)) ≡ some keys) (empty-nil s.attempts idle)
            e in
        let none' : [] ≡ keys = some-injective [] keys e' in
        absurd (omega (arith, subst (λ l. 2 ≤ length l) (sym none') two))
  ]

  new_failures-ne-looping : {k : String} → new_failures s ≢ some (Progress.looping k)
  unfolding new_failures
  new_failures-ne-looping h =
      let (unique, u, rest) = >>=-eq-some (failure_keys (this_iteration s)) _ h in
      let (known, k, got) = >>=-eq-some (failure_keys (prior s)) _ rest in
      elim (Bool-cases (not (is_empty unique) && all (has_key known) unique)) [
        | inl old ↦ ground arith
        | inr fresh ↦ ground arith
      ]

  after_loops-looping :
      (o : Option String) (k : String)
      → (after_loops s o ≡ some (Progress.looping k)) ↔ (o ≡ some k)
  unfolding after_loops
  after_loops-looping (some j) k =
      (λ e. cc, λ e. ap (λ o. elim o [ none ↦ none | some i ↦ some (Progress.looping i) ]) e)
  after_loops-looping none k = (
    λ e. elim (Bool-cases (ltb 0 (length (keep is_success (this_iteration s))))) [
      | inl won ↦ ground arith
      | inr lost ↦ absurd (new_failures-ne-looping (else_of _ lost e))
    ],
    λ e. cc,
  )

  -- With criteria open, a loop is reported for a key exactly when the last three attempts failed
  -- at least twice, always with this key.
  pub detect_progress-looping_iff :
      (k : String)
      → all_criteria_met s ≡ false
      → (detect_progress s ≡ some (Progress.looping k)) ↔ Repeats k
  unfolding detect_progress
  detect_progress-looping_iff k unmet = (
    (λ e. elim (Bool-cases (is_empty s.attempts)) [
      | inl idle ↦ let no' = then_of _ idle e in cc
      | inr busy ↦
          let (keys, f, rest) =
            >>=-eq-some (failure_keys (recent s)) _ (else_of _ unmet (else_of _ busy e)) in
          let (two, same) =
            (repeated_iff keys k).0 ((after_loops-looping (repeated keys) k).0 rest) in
          (keys, f, two, same)
    ]),
    (λ h.
        let (keys, f, two, same) = h in
        rw (busy-Repeats h, unmet, f, detect_progress)
          ((after_loops-looping (repeated keys) k).1 ((repeated_iff keys k).1 ((two, same))))),
  )
