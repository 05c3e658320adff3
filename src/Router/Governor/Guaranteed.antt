-- ===== src/Router/Governor/Guaranteed.antt =====
-- The panics of crates/orion-router/src/governor.rs, and the texts whose cut makes them.
use orion_dock.Prelude.{
  ℕ, zero, suc, ◌+◌, ◌-◌, String, ◌≡◌, refl, ◌≢◌, inl, inr, Option, none, some, List, [], ◌∷◌, ltb,
  Bool-cases, Option-cases, is_empty, All, All-append,
}
use orion_dock.Skills.Failure.{StructuredFailure, kind_key}
use orion_dock.Router.Goal.{GoalFrame, find_matching_risk}
use orion_dock.Router.Execution.{
  AttemptResult, Attempt, Strategy, Progress, ExecutionState, detect_progress, record_attempt,
  all_criteria_met, new,
}
use orion_dock.Router.Prompts.{
  Message, SessionContext, augment_messages, build_initial_messages, diagnose, formulate_question,
}
use orion_dock.Router.Governor.{
  Batch, Env, GovernedResult, Next, ParsedToolCall, Provider, act, after_progress, answered,
  attempt_result, body, call_model, clip, continue, evaluate, execute, over_budget, return,
  run_loop, run_tools, stopped,
}
use orion_dock.Router.Governor.Loop.{Total, >>=-Total}
use orion_dock.Router.Governor.Returns.{
  Keyed, KeyedResult, detect_progress-Total, augment_messages-Total, formulate_question-Total,
  diagnose-Total,
}

-- The tools' texts are cut at a character's end: the output at 500 bytes, a failure's message at 50.
pub record Cuttable {Value W : Type 0} (env : Env Value W) : Type 0 where
  pub output :
      (name : String) (args : Value) (w : W)
      → clip (env.execute_tool name args w).0.output_text ≢ none
  pub failure :
      (name : String) (args : Value) (w : W) (f : StructuredFailure)
      → attempt_result (env.execute_tool name args w).0 ≡ AttemptResult.failure f
      → kind_key f ≢ none

module _ {Value : Type 0} where
  record_attempt-Keyed :
      (s : ExecutionState Value) (a : Attempt)
      → All Keyed s.attempts
      → Keyed a
      → All Keyed (record_attempt s a).attempts
  unfolding record_attempt
  record_attempt-Keyed s a h k = All-append Keyed s.attempts (a ∷ []) h (k, tt)

  attempts-after_progress :
      (lower : String → String) (s : ExecutionState Value) (p : Progress)
      → (after_progress lower s p).attempts ≡ s.attempts
  unfolding after_progress
  attempts-after_progress lower s (Progress.looping key) =
      elim (Option-cases (find_matching_risk lower s.goal key)) [
        | inl unplanned ↦ rw (unplanned, after_progress) refl
        | inr (r, planned) ↦ rw (planned, after_progress) refl
      ]
  attempts-after_progress lower s Progress.stalled = refl
  attempts-after_progress lower s Progress.making_progress = refl
  attempts-after_progress lower s (Progress.partial_success m u) = refl
  attempts-after_progress lower s Progress.no_attempts = refl
  attempts-after_progress lower s Progress.complete = refl

keyed_by :
    (r : AttemptResult)
    → ((f : StructuredFailure) → r ≡ AttemptResult.failure f → kind_key f ≢ none)
    → KeyedResult r
keyed_by (AttemptResult.success s) h = tt
keyed_by (AttemptResult.failure f) h = h f refl

module _ {Value W : Type 0} (env : Env Value W) (cuttable : Cuttable env) where
  abbrev Going : Next Value W → Type 0
  Going (return r w) = Unit
  Going (continue s ms w) = All Keyed s.attempts

  run_tools-Total :
      (i : ℕ) (tcs : List (ParsedToolCall Value)) (b : Batch Value W)
      → All Keyed b.state.attempts
      → Total (λ c. All Keyed c.state.attempts) (run_tools env i tcs b)
  unfolding run_tools
  run_tools-Total i [] b h = h
  run_tools-Total i (tc ∷ tcs) b h =
      elim (Option-cases (clip (env.execute_tool tc.name tc.args b.world).0.output_text)) [
        | inl nothing ↦ absurd (cuttable.output tc.name tc.args b.world nothing)
        | inr (text, clipped) ↦
            rw (clipped, run_tools)
              (run_tools-Total i tcs _ (
                record_attempt-Keyed b.state _ h (
                  keyed_by (attempt_result (env.execute_tool tc.name tc.args b.world).0)
                    (cuttable.failure tc.name tc.args b.world))))
      ]

  evaluate-Going :
      (b : Batch Value W) (ms : List Message) (content : String) (p : Progress)
      → All Keyed b.state.attempts
      → Going (evaluate env b ms content p)
  unfolding evaluate
  evaluate-Going b ms content Progress.complete h = tt
  evaluate-Going b ms content p h = rw (attempts-after_progress env.lower b.state p) h

  stopped-Going :
      (s : ExecutionState Value) (ms : List Message) (content : String) (w : W)
      → All Keyed s.attempts
      → Going (stopped env s ms content w)
  unfolding stopped
  stopped-Going s ms content w h = elim (Bool-cases (all_criteria_met s)) [
    | inl met ↦ rw (met, stopped) tt
    | inr unmet ↦ elim (Bool-cases (ltb s.iteration (s.goal.max_iterations - 1))) [
      | inl more ↦ rw (unmet, more, stopped) h
      | inr last ↦ rw (unmet, last, stopped) tt
    ]
  ]

  answered-Total :
      (s : ExecutionState Value) (ms : List Message) (response : String) (w : W)
      → All Keyed s.attempts
      → Total Going (answered env s ms response w)
  unfolding answered
  answered-Total s ms response w h = elim (Bool-cases (is_empty (env.parse response w).0.1)) [
    | inl silent ↦ rw (silent, answered) (stopped-Going s ms _ _ h)
    | inr busy ↦
        rw (busy, answered)
          (>>=-Total (λ c. All Keyed c.state.attempts) Going (run_tools env s.iteration _ _) _
            (run_tools-Total s.iteration _ _ h)
            λ batch k.
              >>=-Total (λ p. Unit) Going (detect_progress batch.state) _
                (detect_progress-Total batch.state k)
                λ progress q. evaluate-Going batch ms _ progress k)
  ]

  call_model-Total :
      (provider : Provider) (s : ExecutionState Value) (ms : List Message) (w : W)
      → All Keyed s.attempts
      → Total Going (call_model env provider s ms w)
  unfolding call_model
  call_model-Total provider s ms w h =
      >>=-Total (λ m. Unit) Going (augment_messages env.debug ms s) _
        (augment_messages-Total s h env.debug ms)
        λ augmented q. elim (Option-cases (env.complete provider augmented w).0) [
          | inl failed ↦ rw (failed, call_model) h
          | inr (content, answer) ↦ rw (answer, call_model) (answered-Total s ms content _ h)
        ]

  act-Total :
      (s : ExecutionState Value) (ms : List Message) (w : W) (t : Strategy)
      → s.strategy ≡ t
      → All Keyed s.attempts
      → Total Going (act env s ms w)
  unfolding act
  act-Total s ms w Strategy.initial e h = rw (e, act) (call_model-Total Provider.executor s ms w h)
  act-Total s ms w Strategy.retry_with_constraints e h =
      rw (e, act) (call_model-Total Provider.executor s ms w h)
  act-Total s ms w Strategy.alternative_approach e h =
      rw (e, act) (call_model-Total Provider.recovery s ms w h)
  act-Total s ms w Strategy.escalate_to_user e h =
      rw (e, act)
        (>>=-Total (λ q. Unit) Going (formulate_question env.debug s) _
          (formulate_question-Total s h env.debug) λ q asked. tt)
  act-Total s ms w Strategy.abort e h =
      rw (e, act)
        (>>=-Total (λ q. Unit) Going (diagnose env.debug s) _ (diagnose-Total s h env.debug)
          λ q asked. tt)

  body-Total :
      (s : ExecutionState Value) (ms : List Message) (w : W)
      → All Keyed s.attempts
      → Total Going (body env s ms w)
  unfolding body
  body-Total s ms w h = elim (Bool-cases (over_budget s (env.now w))) [
    | inl late ↦ rw (late, body) tt
    | inr early ↦ rw (early, body) (act-Total s ms w s.strategy refl h)
  ]

  run_loop-round :
      (rounds iteration : ℕ) (s : ExecutionState Value) (ms : List Message) (w : W)
      (n : Option (Next Value W))
      → body env (record s { iteration = iteration }) ms w ≡ n
      → Total Going n
      → ((t : ExecutionState Value) (ms' : List Message) (v : W)
          → All Keyed t.attempts
          → Total (λ a. Unit) (run_loop env rounds (iteration + 1) t ms' v))
      → Total (λ a. Unit) (run_loop env (suc rounds) iteration s ms w)
  unfolding run_loop
  run_loop-round rounds iteration s ms w none e a more = absurd a
  run_loop-round rounds iteration s ms w (some (return r v)) e a more = rw (e, run_loop) tt
  run_loop-round rounds iteration s ms w (some (continue t ms' v)) e a more =
      rw (e, run_loop) (more t ms' v a)

  run_loop-Total :
      (rounds iteration : ℕ) (s : ExecutionState Value) (ms : List Message) (w : W)
      → All Keyed s.attempts
      → Total (λ a. Unit) (run_loop env rounds iteration s ms w)
  unfolding run_loop
  run_loop-Total zero iteration s ms w h =
      >>=-Total (λ t. Unit) (λ a. Unit) (diagnose env.debug s) _ (diagnose-Total s h env.debug)
        λ text said. tt
  run_loop-Total (suc rounds) iteration s ms w h =
      run_loop-round rounds iteration s ms w _ refl
        (body-Total (record s { iteration = iteration }) ms w h)
        (run_loop-Total rounds (iteration + 1))

  result_of :
      (o : Option (GovernedResult Value × W))
      → Total (λ a. Unit) o
      → (r : GovernedResult Value) × (w : W) × (o ≡ some (r, w))
  result_of none h = absurd h
  result_of (some (r, w)) h = (r, w, refl)

  -- When the texts that tools give can be cut at the places where the code cuts them, an execution
  -- returns a result.
  pub execute-returns :
      (g : GoalFrame Value) (request : String) (ctx : SessionContext) (w : W)
      → (r : GovernedResult Value) × (w' : W) × (execute env g request ctx w ≡ some (r, w'))
  unfolding execute new
  execute-returns g request ctx w = result_of _ (
      run_loop-Total g.max_iterations 0 (new g (env.now w))
        (build_initial_messages request (new g (env.now w)) ctx) w tt)
