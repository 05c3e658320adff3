-- ===== src/Router/Governor/Calls.antt =====
-- The calls of the models in crates/orion-router/src/governor.rs, counted.
use Prim.Native.String.{len}
use orion_dock.Prelude.{
  ℕ, zero, suc, ◌+◌, ◌-◌, ◌≤◌, String, ◌≡◌, refl, ◌∙◌, subst, inl, inr, Bool, true, false, not,
  ◌&&◌, Option, none, some, List, [], ◌∷◌, arith, ltb, if◌then◌else◌, Bool-cases, Option-cases,
  is_empty, is_blank,
}
use orion_dock.Router.Goal.{GoalFrame}
use orion_dock.Router.Execution.{
  >>=-eq-some, >>=-eq-some, >>=-eq-some, >>=-eq-some, >>=-eq-some, >>=-eq-some, >>=-eq-some,
  Strategy, Progress, ExecutionState, detect_progress,
}
use orion_dock.Router.Prompts.{
  Message, SessionContext, augment_messages, build_initial_messages, diagnose, formulate_question,
}
use orion_dock.Router.Governor.{
  summary_fallback, summary_request, Batch, Env, GovernedResult, Next, ParsedToolCall, Provider,
  act, all_criteria_met, answered, body, call_model, clip, continue, evaluate, execute,
  generate_summary, over_budget, return, run_loop, run_tools, stopped,
}
use orion_dock.Router.Governor.Loop.{Post, >>=-Post}

-- `calls` counts the calls of the models: one for each, and none for a tool or the parser.
pub record Counts {Value W : Type 0} (env : Env Value W) (calls : W → ℕ) : Type 0 where
  pub one_each :
      (p : Provider) (ms : List Message) (w : W) → calls (env.complete p ms w).1 ≡ calls w + 1
  pub tools_call_none :
      (name : String) (args : Value) (w : W) → calls (env.execute_tool name args w).1 ≡ calls w
  pub parser_calls_none : (text : String) (w : W) → calls (env.parse text w).1 ≡ calls w

module _ {Value W : Type 0} (env : Env Value W) (calls : W → ℕ) (counts : Counts env calls) where
  -- From world `w` and `n` calls on: one more may follow a return, for the summary.
  abbrev Spent : ℕ → Next Value W → Type 0
  Spent n (return r w) = calls w ≤ n + 1
  Spent n (continue s ms w) = calls w ≤ n

  run_tools-calls :
      (i : ℕ) (tcs : List (ParsedToolCall Value)) (b : Batch Value W) {c : Batch Value W}
      → run_tools env i tcs b ≡ some c
      → calls c.world ≡ calls b.world
  unfolding run_tools
  run_tools-calls i [] b h = cc
  run_tools-calls i (tc ∷ tcs) b h =
      let (text, clipped, rest) =
        >>=-eq-some (clip (env.execute_tool tc.name tc.args b.world).0.output_text) _ h in
      run_tools-calls i tcs _ rest ∙ counts.tools_call_none tc.name tc.args b.world

  one_more_at_most :
      (enough : Bool) (answer : Option String) (content fallback : String) (w v : W)
      → calls v ≡ calls w + 1
      → calls
          (if◌then◌else◌ {A = String × W} enough
            (content, w)
            (elim answer [ some said ↦ (said, v) | none ↦ (fallback, v) ])).1
        ≤ calls w + 1
  one_more_at_most true answer content fallback w v e = omega arith
  one_more_at_most false (some said) content fallback w v e = omega arith
  one_more_at_most false none content fallback w v e = omega arith

  generate_summary-calls :
      (s : ExecutionState Value) (content : String) (w : W)
      → calls (generate_summary env s content w).1 ≤ calls w + 1
  unfolding generate_summary
  generate_summary-calls s content w =
      one_more_at_most (not (is_blank content) && ltb 20 (len content))
        (env.complete Provider.executor (summary_request env.debug s) w).0 content
        (summary_fallback s) w _ (counts.one_each Provider.executor (summary_request env.debug s) w)

  evaluate-Spent :
      (b : Batch Value W) (ms : List Message) (content : String) (p : Progress)
      → Spent (calls b.world) (evaluate env b ms content p)
  unfolding evaluate
  evaluate-Spent b ms content Progress.complete = generate_summary-calls b.state content b.world
  evaluate-Spent b ms content p = omega arith

  stopped-Spent :
      (s : ExecutionState Value) (ms : List Message) (content : String) (w : W)
      → Spent (calls w) (stopped env s ms content w)
  unfolding stopped
  stopped-Spent s ms content w = elim (Bool-cases (all_criteria_met s)) [
    | inl met ↦ rw (met, stopped) (omega arith)
    | inr unmet ↦ elim (Bool-cases (ltb s.iteration (s.goal.max_iterations - 1))) [
      | inl more ↦ rw (unmet, more, stopped) (omega arith)
      | inr last ↦ rw (unmet, last, stopped) (omega arith)
    ]
  ]

  answered-Spent :
      (s : ExecutionState Value) (ms : List Message) (response : String) (w : W)
      → Post (Spent (calls w)) (answered env s ms response w)
  unfolding answered
  answered-Spent s ms response w =
      let parsed = counts.parser_calls_none response w in
      elim (Bool-cases (is_empty (env.parse response w).0.1)) [
        | inl silent ↦
            rw (silent, answered)
              (subst
                (λ n.
                  Spent n (stopped env s ms (env.parse response w).0.0 (env.parse response w).1))
                parsed (stopped-Spent s ms _ _))
        | inr busy ↦
            rw (busy, answered)
              (>>=-Post (Spent (calls w)) (run_tools env s.iteration _ _) _ λ batch ran.
                >>=-Post (Spent (calls w)) (detect_progress batch.state) _ λ progress p.
                  subst (λ n. Spent n (evaluate env batch ms (env.parse response w).0.0 progress))
                    (run_tools-calls s.iteration _ _ ran ∙ parsed)
                    (evaluate-Spent batch ms _ progress))
      ]

  call_model-Spent :
      (provider : Provider) (s : ExecutionState Value) (ms : List Message) (w : W)
      → Post (Spent (calls w + 1)) (call_model env provider s ms w)
  unfolding call_model
  call_model-Spent provider s ms w =
      >>=-Post (Spent (calls w + 1)) (augment_messages env.debug ms s) _ λ augmented a.
        let once = counts.one_each provider augmented w in
        elim (Option-cases (env.complete provider augmented w).0) [
          | inl failed ↦ rw (failed, call_model) (omega (arith, once))
          | inr (content, answer) ↦
              rw (answer, call_model)
                (subst
                  (λ n.
                    Post (Spent n)
                      (answered env s ms content (env.complete provider augmented w).1))
                  once (answered-Spent s ms content _))
        ]

  act-Spent :
      (s : ExecutionState Value) (ms : List Message) (w : W) (t : Strategy)
      → s.strategy ≡ t
      → Post (Spent (calls w + 1)) (act env s ms w)
  unfolding act
  act-Spent s ms w Strategy.initial e = rw (e, act) (call_model-Spent Provider.executor s ms w)
  act-Spent s ms w Strategy.retry_with_constraints e =
      rw (e, act) (call_model-Spent Provider.executor s ms w)
  act-Spent s ms w Strategy.alternative_approach e =
      rw (e, act) (call_model-Spent Provider.recovery s ms w)
  act-Spent s ms w Strategy.escalate_to_user e =
      rw (e, act)
        (>>=-Post (Spent (calls w + 1)) (formulate_question env.debug s) _ λ q asked. omega arith)
  act-Spent s ms w Strategy.abort e =
      rw (e, act) (>>=-Post (Spent (calls w + 1)) (diagnose env.debug s) _ λ q asked. omega arith)

  body-Spent :
      (s : ExecutionState Value) (ms : List Message) (w : W)
      → Post (Spent (calls w + 1)) (body env s ms w)
  unfolding body
  body-Spent s ms w = elim (Bool-cases (over_budget s (env.now w))) [
    | inl late ↦ rw (late, body) (omega arith)
    | inr early ↦ rw (early, body) (act-Spent s ms w s.strategy refl)
  ]

  abbrev Bounded : ℕ → Option (GovernedResult Value × W) → Type 0
  Bounded n o = Post (λ a. calls a.1 ≤ n) o

  Bounded-mono :
      {m n : ℕ} (o : Option (GovernedResult Value × W)) → m ≤ n → Bounded m o → Bounded n o
  Bounded-mono none le h = tt
  Bounded-mono (some a) le h = omega arith

  run_loop-round :
      (rounds iteration : ℕ) (s : ExecutionState Value) (ms : List Message) (w : W)
      (n : Option (Next Value W))
      → body env (record s { iteration = iteration }) ms w ≡ n
      → Post (Spent (calls w + 1)) n
      → ((t : ExecutionState Value) (ms' : List Message) (v : W)
          → Bounded (calls v + rounds + 1) (run_loop env rounds (iteration + 1) t ms' v))
      → Bounded (calls w + suc rounds + 1) (run_loop env (suc rounds) iteration s ms w)
  unfolding run_loop
  run_loop-round rounds iteration s ms w none e a more = rw (e, run_loop) tt
  run_loop-round rounds iteration s ms w (some (return r v)) e a more =
      rw (e, run_loop) (omega (arith, a))
  run_loop-round rounds iteration s ms w (some (continue t ms' v)) e a more =
      rw (e, run_loop)
        (Bounded-mono (run_loop env rounds (iteration + 1) t ms' v) (omega (arith, a))
          (more t ms' v))

  run_loop-Bounded :
      (rounds iteration : ℕ) (s : ExecutionState Value) (ms : List Message) (w : W)
      → Bounded (calls w + rounds + 1) (run_loop env rounds iteration s ms w)
  unfolding run_loop
  run_loop-Bounded zero iteration s ms w =
      >>=-Post (λ a. calls a.1 ≤ calls w + 0 + 1) (diagnose env.debug s) _ λ text said. omega arith
  run_loop-Bounded (suc rounds) iteration s ms w =
      run_loop-round rounds iteration s ms w _ refl
        (body-Spent (record s { iteration = iteration }) ms w)
        (run_loop-Bounded rounds (iteration + 1))

  -- With a world that counts the calls of the models, an execution calls them at most once for each
  -- iteration of its plan, and once more.
  pub execute-calls :
      (g : GoalFrame Value) (request : String) (ctx : SessionContext) (w : W)
      {r : GovernedResult Value} {w' : W}
      → execute env g request ctx w ≡ some (r, w')
      → calls w' ≤ calls w + g.max_iterations + 1
  unfolding execute
  execute-calls g request ctx w ran =
      subst (Bounded (calls w + g.max_iterations + 1)) ran
        (run_loop-Bounded g.max_iterations 0 _ (build_initial_messages request _ ctx) w)
