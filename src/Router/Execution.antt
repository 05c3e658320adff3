-- ===== src/Router/Execution.antt =====
-- crates/orion-router/src/execution_state.rs: the governor's working memory and the progress that
-- it reads from it. An instant is a number of nanoseconds. `none` stands for a panic.
pub mod Detection
use orion_dock.Prelude.{
  ℕ, ◌+◌, ◌-◌, String, ◌≡◌, refl, Bool, true, false, not, ◌&&◌, Option, none, some, List, [], ◌∷◌,
  ◌++◌, reverse, ltb, eqb, if◌then◌else◌, length, is_empty, set, take, replicate, any, all, keep,
  filter_map, ◌==◌,
}
use orion_dock.Skills.Failure.{StructuredFailure, Constraint, kind_key, to_constraint}
use orion_dock.Router.Goal.{GoalFrame, Criterion, Risk}

pub data Strategy : Type 0 where
  initial retry_with_constraints alternative_approach escalate_to_user abort : Strategy

pub data CriterionStatus : Type 0 where
  not_attempted in_progress : CriterionStatus
  met : (verified_at : ℕ) → CriterionStatus
  failed : (reason : String) → CriterionStatus

pub data AttemptResult : Type 0 where
  success : (summary : String) → AttemptResult
  failure : StructuredFailure → AttemptResult

pub record Attempt : Type 0 where
  pub iteration : ℕ
  pub tool : String
  pub args_summary : String
  pub result : AttemptResult
  pub timestamp : ℕ

pub data Progress : Type 0 where
  no_attempts making_progress stalled : Progress
  looping : (repeated_failure : String) → Progress
  complete : Progress
  partial_success : (met unmet : List String) → Progress

pub record ExecutionState (Value : Type 0) : Type 0 where
  pub goal : GoalFrame Value
  pub iteration : ℕ
  pub started_at : ℕ
  pub attempts : List Attempt
  pub constraints_discovered : List Constraint
  pub strategy : Strategy
  pub criteria_status : List CriterionStatus
  pub active_mitigation : Option Risk

abbrev pub is_met : CriterionStatus → Bool
is_met (CriterionStatus.met _) = true
is_met _ = false

abbrev pub is_success : Attempt → Bool
is_success a = elim a.result [ AttemptResult.success _ ↦ true | AttemptResult.failure _ ↦ false ]

abbrev pub failure_of : Attempt → Option StructuredFailure
failure_of a = elim a.result [ AttemptResult.success _ ↦ none | AttemptResult.failure f ↦ some f ]

abbrev pub constraint_of : Attempt → Option Constraint
constraint_of a = elim a.result [
  | AttemptResult.success _ ↦ none
  | AttemptResult.failure f ↦ to_constraint f
]

abbrev pub push_constraint : Option Constraint → List Constraint → List Constraint
push_constraint none l = l
push_constraint (some c) l = l ++ c ∷ []

infixl 5 ◌>>=◌
abbrev pub ◌>>=◌ : {A B : Type 0} → Option A → (A → Option B) → Option B
none >>= k = none
some a >>= k = k a

pub >>=-eq-some :
    {A B : Type 0} (m : Option A) (f : A → Option B) {b : B}
    → (m >>= f) ≡ some b
    → (a : A) × (m ≡ some a) × (f a ≡ some b)
>>=-eq-some none f h = cc
>>=-eq-some (some a) f h = (a, refl, h)

-- The keys of some failures; a key that panics is a panic.
unfoldable pub kind_keys : List StructuredFailure → Option (List String)
kind_keys [] = some []
kind_keys (f ∷ fs) = do k ← kind_key f; ks ← kind_keys fs; some (k ∷ ks)

-- `windows(2).all(|w| w[0] == w[1])`
abbrev pub all_equal : List String → Bool
all_equal [] = true
all_equal (k ∷ []) = true
all_equal (k ∷ l ∷ ks) = k == l && all_equal (l ∷ ks)

-- The key that a list of at least two equal keys repeats.
abbrev pub repeated : List String → Option String
repeated [] = none
repeated (k ∷ []) = none
repeated (k ∷ l ∷ ks) = if all_equal (k ∷ l ∷ ks) then some k else none

abbrev pub has_key : List String → String → Bool
has_key ks k = any (λ j. j == k) ks

abbrev pub failure_keys : List Attempt → Option (List String)
failure_keys l = kind_keys (filter_map failure_of l)

module _ {Value : Type 0} where
  unfoldable pub new : GoalFrame Value → ℕ → ExecutionState Value
  new goal now = record {
    goal = goal;
    iteration = 0;
    started_at = now;
    attempts = [];
    constraints_discovered = [];
    strategy = Strategy.initial;
    criteria_status = replicate (length goal.done_criteria) CriterionStatus.not_attempted;
    active_mitigation = none;
  }

  unfoldable pub record_attempt : ExecutionState Value → Attempt → ExecutionState Value
  record_attempt s attempt = record s {
    constraints_discovered = push_constraint (constraint_of attempt) s.constraints_discovered;
    attempts = s.attempts ++ attempt ∷ [];
  }

  unfoldable pub set_active_mitigation : ExecutionState Value → Option Risk → ExecutionState Value
  set_active_mitigation s risk = record s { active_mitigation = risk }

  unfoldable pub mark_criterion_met : ExecutionState Value → ℕ → ℕ → ExecutionState Value
  mark_criterion_met s index now =
      if ltb index (length s.criteria_status)
      then record s { criteria_status = set s.criteria_status index (CriterionStatus.met now) }
      else s

  unfoldable pub mark_criterion_failed : ExecutionState Value → ℕ → String → ExecutionState Value
  mark_criterion_failed s index reason =
      if ltb index (length s.criteria_status)
      then record s {
        criteria_status = set s.criteria_status index (CriterionStatus.failed reason);
      }
      else s

  unfoldable pub met_criteria_count : ExecutionState Value → ℕ
  met_criteria_count s = length (keep is_met s.criteria_status)

  unfoldable pub all_criteria_met : ExecutionState Value → Bool
  unfolding met_criteria_count
  all_criteria_met s = eqb (met_criteria_count s) (length s.goal.done_criteria)

  -- The last three attempts, the latest first.
  abbrev pub recent : ExecutionState Value → List Attempt
  recent s = take 3 (reverse s.attempts)

  abbrev pub this_iteration : ExecutionState Value → List Attempt
  this_iteration s = keep (λ a. eqb a.iteration s.iteration) s.attempts

  abbrev pub prior : ExecutionState Value → List Attempt
  prior s = keep (λ a. ltb a.iteration s.iteration) s.attempts

  -- The tests after loop detection: success in this iteration, or else whether its failures are new.
  unfoldable pub new_failures : ExecutionState Value → Option Progress
  unfolding kind_keys
  new_failures s = do
    unique ← failure_keys (this_iteration s)
    known ← failure_keys (prior s)
    some (
        if not (is_empty unique) && all (has_key known) unique
        then Progress.stalled
        else Progress.making_progress)

  unfoldable pub after_loops : ExecutionState Value → Option String → Option Progress
  unfolding new_failures
  after_loops s (some k) = some (Progress.looping k)
  after_loops s none =
      if ltb 0 (length (keep is_success (this_iteration s)))
      then some Progress.making_progress
      else new_failures s

  unfoldable pub detect_progress : ExecutionState Value → Option Progress
  unfolding after_loops
  detect_progress s =
      if is_empty s.attempts
      then some Progress.no_attempts
      else if all_criteria_met s
      then some Progress.complete
      else (do keys ← failure_keys (recent s); after_loops s (repeated keys))
