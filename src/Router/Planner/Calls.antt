-- ===== src/Router/Planner/Calls.antt =====
-- The calls of the models in a governed execution, the planner's included.
use orion_dock.Prelude.{ℕ, ◌+◌, ◌≤◌, String, ◌≡◌, Option, none, some, List, arith}
use orion_dock.Router.Goal.{GoalFrame}
use orion_dock.Router.Prompts.{Message, SessionContext}
use orion_dock.Router.Governor.{Env, GovernedResult}
use orion_dock.Router.Governor.Calls.{Counts, execute-calls}
use orion_dock.Router.Planner.{
  Planner, UserRequest, planned, answered, plan, execute_request, parse_goal_frame, build_prompt,
  repair_prompt, parse_error,
}

module _ {Value W : Type 0} (planner : Planner Value W) (calls : W → ℕ)
    (one_each : (ms : List Message) (w : W) → calls (planner.complete ms w).1 ≡ calls w + 1) where
  planned-calls :
      (request : UserRequest Value) (content : String) (frame : Option (GoalFrame Value)) (w : W)
      → calls (planned planner request content frame w).1 ≤ calls w + 1
  planned-calls request content (some frame) w = omega arith
  planned-calls request content none w =
      omega (arith, one_each (repair_prompt content parse_error) w)

  answered-calls :
      (request : UserRequest Value) (answer : Option String) (w : W)
      → calls (answered planner request answer w).1 ≤ calls w + 1
  answered-calls request none w = omega arith
  answered-calls request (some content) w =
      planned-calls request content (parse_goal_frame planner content) w

  plan-calls :
      (request : UserRequest Value) (w : W) → calls (plan planner request w).1 ≤ calls w + 2
  unfolding plan
  plan-calls request w = omega (
    arith,
    answered-calls request (planner.complete (build_prompt planner request) w).0
        (planner.complete (build_prompt planner request) w).1,
    one_each (build_prompt planner request) w,
  )

  -- With a world that counts the calls of the models, a governed execution calls them at most twice for
  -- the plan, once for each of the plan's iterations, and once more for the summary.
  pub execute_request-calls :
      (env : Env Value W) (counts : Counts env calls) (request : UserRequest Value)
      (ctx : SessionContext) (w : W) {r : GovernedResult Value} {w' : W}
      → execute_request planner env request ctx w ≡ some (r, w')
      → calls w' ≤ calls w + (plan planner request w).0.max_iterations + 3
  unfolding execute_request
  execute_request-calls env counts request ctx w ran =
      let planning = plan-calls request w in
      let running =
        execute-calls env calls counts (plan planner request w).0 request.text ctx
          (plan planner request w).1 ran in
      omega (arith, planning, running)
