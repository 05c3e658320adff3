-- ===== src/Router/Governor/Loop.antt =====
-- What holds of the state between two rounds of the governor's loop, whatever the environment.
use orion_dock.Prelude.{
  ℕ, zero, suc, ◌≤◌, String, ◌≡◌, refl, sym, ap, ◌∙◌, subst, ◌≢◌, ◌↔◌, inl, inr, true, Option, none,
  some, List, [], ◌∷◌, ◌++◌, append-nil, arith, eqb, eqb_iff, Option-cases, length, replicate, keep,
  Elem, All, filter_map, filter_map-append, All-append, find_first-Elem,
}
use orion_dock.Skills.Failure.{Constraint}
use orion_dock.Router.Goal.{GoalFrame, Risk, find_matching_risk}
use orion_dock.Router.Execution.{
  >>=-eq-some, Strategy, CriterionStatus, Attempt, Progress, ExecutionState, is_met, constraint_of,
  push_constraint, record_attempt, all_criteria_met, ◌>>=◌,
}
use orion_dock.Router.Governor.{
  ParsedToolCall, Env, GovernedResult, Batch, Next, return, continue, clip, after_progress,
  run_tools,
}

-- A postcondition of what may panic, and of what may not.
abbrev pub Post : {A : Type 0} → (A → Type 0) → Option A → Type 0
Post P none = Unit
Post P (some a) = P a

pub >>=-Post :
    {A B : Type 0} (P : B → Type 0) (m : Option A) (f : A → Option B)
    → ((a : A) → m ≡ some a → Post P (f a))
    → Post P (m >>= f)
>>=-Post P none f h = tt
>>=-Post P (some a) f h = h a refl

abbrev pub Total : {A : Type 0} → (A → Type 0) → Option A → Type 0
Total P none = ⊥
Total P (some a) = P a

pub >>=-Total :
    {A B : Type 0} (Q : A → Type 0) (P : B → Type 0) (m : Option A) (f : A → Option B)
    → Total Q m
    → ((a : A) → Q a → Total P (f a))
    → Total P (m >>= f)
>>=-Total Q P none f q h = absurd q
>>=-Total Q P (some a) f q h = h a q

-- A strategy is an alternative approach only with a mitigation of the plan at hand.
abbrev pub Mitigated : {Value : Type 0} → GoalFrame Value → Strategy → Option Risk → Type 0
Mitigated g Strategy.alternative_approach (some risk) = Elem risk g.risk_assessment
Mitigated g Strategy.alternative_approach none = ⊥
Mitigated g Strategy.abort r = ⊥
Mitigated g _ r = Unit

pub record Inv {Value : Type 0} (g : GoalFrame Value) (s : ExecutionState Value) : Type 0 where
  pub same_goal : s.goal ≡ g
  pub untouched :
      s.criteria_status ≡ replicate (length g.done_criteria) CriterionStatus.not_attempted
  pub learned : s.constraints_discovered ≡ filter_map constraint_of s.attempts
  pub dated : All (λ a. a.iteration ≤ s.iteration) s.attempts
  pub strategic : Mitigated g s.strategy s.active_mitigation

-- What a result tells of the plan and the state it was given.
abbrev pub Sound : {Value : Type 0} → GoalFrame Value → GovernedResult Value → Type 0
Sound g (GovernedResult.success _) = g.done_criteria ≡ []
Sound g (GovernedResult.needs_input _ s) = Inv g s × (s.strategy ≡ Strategy.escalate_to_user)
Sound g (GovernedResult.incomplete _ s) = Inv g s × (g.done_criteria ≢ [])
Sound g (GovernedResult.max_iterations_reached s _) = Inv g s
Sound g (GovernedResult.time_budget_exceeded s) = Inv g s × (g.time_budget ≢ none)
Sound g (GovernedResult.aborted _ s) = ⊥

-- What a loop body at iteration `i` leaves.
abbrev pub Keeps : {Value W : Type 0} → GoalFrame Value → ℕ → Next Value W → Type 0
Keeps g i (return r w) = Sound g r
Keeps g i (continue s messages w) = Inv g s × (s.iteration ≡ i)

push_constraint-learned :
    (l : List Constraint) (l0 : List Attempt) (a : Attempt)
    → l ≡ filter_map constraint_of l0
    → push_constraint (constraint_of a) l ≡ filter_map constraint_of (l0 ++ a ∷ [])
push_constraint-learned l l0 a h =
    rw (filter_map-append constraint_of l0 (a ∷ [])) (elim (Option-cases (constraint_of a)) [
      | inl nothing ↦ rw (nothing, filter_map) (h ∙ sym (append-nil _))
      | inr (c, some_c) ↦ rw (some_c, filter_map) (ap (λ m. m ++ c ∷ []) h)
    ])

no_met : (n : ℕ) → keep is_met (replicate n CriterionStatus.not_attempted) ≡ []
no_met zero = refl
no_met (suc n) = no_met n

eqb-length {ℓ} : {A : Type ℓ} (l : List A) → (eqb 0 (length l) ≡ true) ↔ (l ≡ [])
eqb-length [] = (λ e. refl, λ e. refl)
eqb-length (x ∷ l) = (λ e. absurd (omega (arith, (eqb_iff 0 (suc (length l))).0 e)), λ e. cc)

find_matching_risk-Elem :
    {Value : Type 0} (lower : String → String) (g : GoalFrame Value) (key : String) {r : Risk}
    → find_matching_risk lower g key ≡ some r
    → Elem r g.risk_assessment
unfolding find_matching_risk
find_matching_risk-Elem lower g key h = (find_first-Elem _ g.risk_assessment h).0

module _ {Value : Type 0} (g : GoalFrame Value) where
  record_attempt-Inv :
      (s : ExecutionState Value) (a : Attempt)
      → a.iteration ≤ s.iteration
      → Inv g s
      → Inv g (record_attempt s a)
  unfolding record_attempt
  record_attempt-Inv s a le h = record {
    same_goal = h.same_goal;
    untouched = h.untouched;
    learned = push_constraint-learned s.constraints_discovered s.attempts a h.learned;
    dated = All-append (λ b. b.iteration ≤ s.iteration) s.attempts (a ∷ []) h.dated (le, tt);
    strategic = h.strategic;
  }

  -- The criteria count as met only when there are none.
  pub all_criteria_met_iff :
      (s : ExecutionState Value) → Inv g s → (all_criteria_met s ≡ true) ↔ (g.done_criteria ≡ [])
  unfolding all_criteria_met
  all_criteria_met_iff s h = simp (h.untouched, h.same_goal, no_met) (eqb-length g.done_criteria)

  pub with_strategy :
      (s : ExecutionState Value) (t : Strategy) (r : Option Risk)
      → Inv g s
      → Mitigated g t r
      → Inv g (record s { strategy = t; active_mitigation = r })
  with_strategy s t r h m = record {
    same_goal = h.same_goal;
    untouched = h.untouched;
    learned = h.learned;
    dated = h.dated;
    strategic = m;
  }

  iteration-record_attempt :
      (s : ExecutionState Value) (a : Attempt) → (record_attempt s a).iteration ≡ s.iteration
  unfolding record_attempt
  iteration-record_attempt s a = refl

  after_progress-Inv :
      (lower : String → String) (s : ExecutionState Value) (p : Progress)
      → Inv g s
      → Inv g (after_progress lower s p)
  unfolding after_progress
  after_progress-Inv lower s (Progress.looping key) h =
      elim (Option-cases (find_matching_risk lower s.goal key)) [
        | inl unplanned ↦
            rw (unplanned, after_progress)
              (with_strategy s Strategy.escalate_to_user s.active_mitigation h tt)
        | inr (r, planned) ↦
            rw (planned, after_progress)
              (with_strategy s Strategy.alternative_approach (some r) h (
                subst (λ f. Elem r f.risk_assessment) h.same_goal
                  (find_matching_risk-Elem lower s.goal key planned)))
      ]
  after_progress-Inv lower s Progress.stalled h =
      with_strategy s Strategy.escalate_to_user s.active_mitigation h tt
  after_progress-Inv lower s Progress.making_progress h =
      with_strategy s Strategy.retry_with_constraints s.active_mitigation h tt
  after_progress-Inv lower s (Progress.partial_success m u) h =
      with_strategy s Strategy.retry_with_constraints s.active_mitigation h tt
  after_progress-Inv lower s Progress.no_attempts h = h
  after_progress-Inv lower s Progress.complete h = h

  iteration-after_progress :
      (lower : String → String) (s : ExecutionState Value) (p : Progress)
      → (after_progress lower s p).iteration ≡ s.iteration
  unfolding after_progress
  iteration-after_progress lower s (Progress.looping key) =
      elim (Option-cases (find_matching_risk lower s.goal key)) [
        | inl unplanned ↦ rw (unplanned, after_progress) refl
        | inr (r, planned) ↦ rw (planned, after_progress) refl
      ]
  iteration-after_progress lower s Progress.stalled = refl
  iteration-after_progress lower s Progress.making_progress = refl
  iteration-after_progress lower s (Progress.partial_success m u) = refl
  iteration-after_progress lower s Progress.no_attempts = refl
  iteration-after_progress lower s Progress.complete = refl

  pub after_progress-Keeps :
      (lower : String → String) (s : ExecutionState Value) (p : Progress)
      → Inv g s
      → Inv g (after_progress lower s p) × ((after_progress lower s p).iteration ≡ s.iteration)
  after_progress-Keeps lower s p h =
      (after_progress-Inv lower s p h, iteration-after_progress lower s p)

module _ {Value W : Type 0} (env : Env Value W) (g : GoalFrame Value) where
  pub run_tools-Inv :
      (iteration : ℕ) (tcs : List (ParsedToolCall Value)) (b : Batch Value W) {b' : Batch Value W}
      → b.state.iteration ≡ iteration
      → Inv g b.state
      → run_tools env iteration tcs b ≡ some b'
      → Inv g b'.state × (b'.state.iteration ≡ iteration)
  unfolding run_tools
  run_tools-Inv iteration [] b {b'} e h r =
      let same : b ≡ b' = cc in
      (subst (λ c. Inv g c.state) same h, subst (λ c. c.state.iteration ≡ iteration) same e)
  run_tools-Inv iteration (tc ∷ tcs) b e h r =
      let (text, clipped, rest) =
        >>=-eq-some (clip (env.execute_tool tc.name tc.args b.world).0.output_text) _ r in
      run_tools-Inv iteration tcs _ (iteration-record_attempt g b.state _ ∙ e)
        (record_attempt-Inv g b.state _ (omega arith) h) rest
