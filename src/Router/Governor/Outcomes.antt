-- ===== src/Router/Governor/Outcomes.antt =====
-- The results of crates/orion-router/src/governor.rs, for every environment.
use orion_dock.Prelude.{
  then_of, else_of, not_both, ℕ, zero, suc, ◌+◌, ◌-◌, ◌≤◌, String, ◌≡◌, refl, ap, ◌∙◌, subst, ◌≢◌,
  inl, inr, true, false, not, ◌&&◌, Option, none, some, List, [], arith, ltb, Bool-cases,
  Option-cases, length, is_empty, all, keep, All-mono,
}
use orion_dock.Router.Goal.{GoalFrame}
use orion_dock.Router.Execution.{
  >>=-eq-some, has_key, prior, this_iteration, is_success, Strategy, Progress, ExecutionState, new,
  all_criteria_met, detect_progress, after_loops, new_failures, failure_keys, recent, repeated,
}
use orion_dock.Router.Prompts.{
  Message, SessionContext, build_initial_messages, augment_messages, formulate_question, diagnose,
}
use orion_dock.Router.Governor.{
  Provider, Env, GovernedResult, Batch, Next, return, continue, over_budget, run_tools, stopped,
  evaluate, answered, call_model, act, body, run_loop, execute,
}
use orion_dock.Router.Governor.Loop.{
  >>=-Post, Post, Inv, Sound, Keeps, Mitigated, all_criteria_met_iff, with_strategy,
  after_progress-Keeps, run_tools-Inv,
}

module _ {Value : Type 0} (s : ExecutionState Value) where
  new_failures-ne-complete : {p : Progress} → new_failures s ≡ some p → p ≢ Progress.complete
  unfolding new_failures
  new_failures-ne-complete h e =
      let (unique, u, rest) = >>=-eq-some (failure_keys (this_iteration s)) _ h in
      let (known, k, got) = >>=-eq-some (failure_keys (prior s)) _ rest in
      elim (Bool-cases (not (is_empty unique) && all (has_key known) unique)) [
        | inl old ↦ ground arith
        | inr fresh ↦ ground arith
      ]

  after_loops-ne-complete :
      (k : Option String) {p : Progress} → after_loops s k ≡ some p → p ≢ Progress.complete
  unfolding after_loops
  after_loops-ne-complete (some k) h e = cc
  after_loops-ne-complete none h e =
      elim (Bool-cases (ltb 0 (length (keep is_success (this_iteration s))))) [
        | inl won ↦ ground arith
        | inr lost ↦ new_failures-ne-complete (else_of _ lost h) e
      ]

  complete-all_met : detect_progress s ≡ some Progress.complete → all_criteria_met s ≡ true
  unfolding detect_progress
  complete-all_met h = elim (Bool-cases (is_empty s.attempts)) [
    | inl idle ↦ let e = then_of _ idle h in cc
    | inr busy ↦ elim (Bool-cases (all_criteria_met s)) [
      | inl met ↦ met
      | inr unmet ↦
          let (keys, k, rest) =
            >>=-eq-some (failure_keys (recent s)) _ (else_of _ unmet (else_of _ busy h)) in
          absurd (after_loops-ne-complete (repeated keys) rest refl)
    ]
  ]

module _ {Value W : Type 0} (env : Env Value W) (g : GoalFrame Value) where
  stopped-Keeps :
      (s : ExecutionState Value) (ms : List Message) (content : String) (w : W)
      → Inv g s
      → Keeps g s.iteration (stopped env s ms content w)
  unfolding stopped
  stopped-Keeps s ms content w h = elim (Bool-cases (all_criteria_met s)) [
    | inl met ↦ rw (met, stopped) ((all_criteria_met_iff g s h).0 met)
    | inr unmet ↦ elim (Bool-cases (ltb s.iteration (s.goal.max_iterations - 1))) [
      | inl more ↦
          rw (unmet, more, stopped)
            ((with_strategy g s Strategy.retry_with_constraints s.active_mitigation h tt, refl))
      | inr last ↦
          rw (unmet, last, stopped) ((h, λ e. not_both ((all_criteria_met_iff g s h).1 e) unmet))
    ]
  ]

  evaluate-Keeps :
      (b : Batch Value W) (ms : List Message) (content : String) (p : Progress)
      → Inv g b.state
      → (p ≡ Progress.complete → g.done_criteria ≡ [])
      → Keeps g b.state.iteration (evaluate env b ms content p)
  unfolding evaluate
  evaluate-Keeps b ms content Progress.complete h done = done refl
  evaluate-Keeps b ms content p h done = after_progress-Keeps g env.lower b.state _ h

  unlimited :
      (s : ExecutionState Value) (now : ℕ) → s.goal.time_budget ≡ none → over_budget s now ≡ false
  unlimited s now e = rw (e, over_budget) refl

  answered-After :
      (s : ExecutionState Value) (ms : List Message) (response : String) (w : W)
      → Inv g s
      → Post (Keeps g s.iteration) (answered env s ms response w)
  unfolding answered
  answered-After s ms response w h = elim (Bool-cases (is_empty (env.parse response w).0.1)) [
    | inl silent ↦ rw (silent, answered) (stopped-Keeps s ms _ _ h)
    | inr busy ↦
        rw (busy, answered)
          (>>=-Post (Keeps g s.iteration) (run_tools env s.iteration _ _) _ λ batch ran.
            let (kept, same) = run_tools-Inv env g s.iteration _ _ refl h ran in
            >>=-Post (Keeps g s.iteration) (detect_progress batch.state) _ λ progress p.
              subst (λ i. Keeps g i (evaluate env batch ms (env.parse response w).0.0 progress))
                same
                (evaluate-Keeps batch ms _ progress kept (λ e.
                  (all_criteria_met_iff g batch.state kept).0
                    (complete-all_met batch.state (p ∙ ap some e)))))
  ]

  call_model-After :
      (provider : Provider) (s : ExecutionState Value) (ms : List Message) (w : W)
      → Inv g s
      → Post (Keeps g s.iteration) (call_model env provider s ms w)
  unfolding call_model
  call_model-After provider s ms w h =
      >>=-Post (Keeps g s.iteration) (augment_messages env.debug ms s) _ λ augmented a.
        elim (Option-cases (env.complete provider augmented w).0) [
          | inl failed ↦
              rw (failed, call_model)
                ((with_strategy g s Strategy.retry_with_constraints s.active_mitigation h tt, refl))
          | inr (content, answer) ↦ rw (answer, call_model) (answered-After s ms content _ h)
        ]

  act-After :
      (s : ExecutionState Value) (ms : List Message) (w : W) (t : Strategy)
      → s.strategy ≡ t
      → Inv g s
      → Post (Keeps g s.iteration) (act env s ms w)
  unfolding act
  act-After s ms w Strategy.initial e h = rw (e, act) (call_model-After Provider.executor s ms w h)
  act-After s ms w Strategy.retry_with_constraints e h =
      rw (e, act) (call_model-After Provider.executor s ms w h)
  act-After s ms w Strategy.alternative_approach e h =
      rw (e, act) (call_model-After Provider.recovery s ms w h)
  act-After s ms w Strategy.escalate_to_user e h =
      rw (e, act)
        (>>=-Post (Keeps g s.iteration) (formulate_question env.debug s) _ λ q asked. (h, e))
  act-After s ms w Strategy.abort e h =
      absurd (subst (λ t. Mitigated g t s.active_mitigation) e h.strategic)

  body-After :
      (s : ExecutionState Value) (ms : List Message) (w : W)
      → Inv g s
      → Post (Keeps g s.iteration) (body env s ms w)
  unfolding body
  body-After s ms w h = elim (Bool-cases (over_budget s (env.now w))) [
    | inl late ↦
        rw (late, body)
          ((
            h,
            λ e. not_both late (unlimited s (env.now w) (ap (λ f. f.time_budget) h.same_goal ∙ e)),
          ))
    | inr early ↦ rw (early, body) (act-After s ms w s.strategy refl h)
  ]

  at_iteration :
      (s : ExecutionState Value) (i : ℕ)
      → s.iteration ≤ i
      → Inv g s
      → Inv g (record s { iteration = i })
  at_iteration s i le h = record {
    same_goal = h.same_goal;
    untouched = h.untouched;
    learned = h.learned;
    dated =
        All-mono (λ a. a.iteration ≤ s.iteration) (λ a. a.iteration ≤ i) s.attempts
          (λ a early. omega arith) h.dated;
    strategic = h.strategic;
  }

  -- What a run of the loop answers.
  abbrev Answer : Option (GovernedResult Value × W) → Type 0
  Answer none = Unit
  Answer (some (r, w)) = Sound g r

  run_loop-round :
      (rounds iteration : ℕ) (s : ExecutionState Value) (ms : List Message) (w : W)
      (n : Option (Next Value W))
      → body env (record s { iteration = iteration }) ms w ≡ n
      → Post (Keeps g iteration) n
      → ((t : ExecutionState Value) (ms' : List Message) (v : W)
          → t.iteration ≤ iteration + 1
          → Inv g t
          → Answer (run_loop env rounds (iteration + 1) t ms' v))
      → Answer (run_loop env (suc rounds) iteration s ms w)
  unfolding run_loop
  run_loop-round rounds iteration s ms w none e a more = rw (e, run_loop) tt
  run_loop-round rounds iteration s ms w (some (return r v)) e a more = rw (e, run_loop) a
  run_loop-round rounds iteration s ms w (some (continue t ms' v)) e a more =
      rw (e, run_loop) (more t ms' v (omega (arith, a.1)) a.0)

  run_loop-Sound :
      (rounds iteration : ℕ) (s : ExecutionState Value) (ms : List Message) (w : W)
      → s.iteration ≤ iteration
      → Inv g s
      → Answer (run_loop env rounds iteration s ms w)
  unfolding run_loop
  run_loop-Sound zero iteration s ms w le h = elim (Option-cases (diagnose env.debug s)) [
    | inl panicked ↦ rw (panicked, run_loop) tt
    | inr (text, said) ↦ rw (said, run_loop) h
  ]
  run_loop-Sound (suc rounds) iteration s ms w le h =
      let s' : ExecutionState Value = record s { iteration = iteration } in
      run_loop-round rounds iteration s ms w _ refl
        (body-After s' ms w (at_iteration s iteration le h)) (run_loop-Sound rounds (iteration + 1))

  new-Inv : (now : ℕ) → Inv g (new g now)
  unfolding new
  new-Inv now = record {
    same_goal = refl;
    untouched = refl;
    learned = refl;
    dated = tt;
    strategic = tt;
  }

  -- Whatever the models, the tools and the parser do, a result of an execution says this: success
  -- that the plan has no done criteria; a question that the strategy is to escalate; an incomplete
  -- result that the plan has done criteria; a timeout that it has a budget; and it is never an abort.
  -- The state that a result holds keeps the plan and the criteria unattempted, has the constraints of
  -- the attempts in order and no attempt later than its iteration, and is on an alternative approach
  -- only with a mitigation of the plan.
  pub execute-Sound :
      (request : String) (ctx : SessionContext) (w : W) {r : GovernedResult Value} {w' : W}
      → execute env g request ctx w ≡ some (r, w')
      → Sound g r
  unfolding execute new
  execute-Sound request ctx w {r} {w'} ran = subst Answer ran (
      run_loop-Sound g.max_iterations 0 _ (build_initial_messages request (new g (env.now w)) ctx) w
        (omega arith) (new-Inv (env.now w)))
