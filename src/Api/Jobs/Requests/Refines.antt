-- ===== src/Api/Jobs/Requests/Refines.antt =====
-- The list of jobs of crates/orion-api/src/orchestration.rs against a map from ids to jobs.
use mathlib.Core.Path.{fun_ext}
use orion_dock.Prelude.{
  subst, ℕ, String, ◌≡◌, refl, sym, ap, Bool, true, false, not, Option, none, some, List, [], ◌∷◌,
  ◌++◌, arith, eq_iff, eqb, if◌then◌else◌, length, keep, length-keep, ◌==◌, empty_text, trim,
}
use orion_dock.Api.Jobs.{Answer, ok, err, OrchestrationJob, Cron, validate_cron}
use orion_dock.Api.Jobs.Requests.{
  CreateOrchestrationJobRequest, UpdateOrchestrationJobRequest, Edit, edited, alter, new_job,
  create_job, update_edit, enable_edit, update_job, set_job_enabled, delete_job,
}

-- The jobs by their ids.
abbrev pub Registry : Type 0
Registry = String → Option OrchestrationJob

-- The job that a list has under an id.
unfoldable pub view : List OrchestrationJob → Registry
view [] job_id = none
view (job ∷ jobs) job_id = if job.job_id == job_id then some job else view jobs job_id

abbrev pub put : String → Option OrchestrationJob → Registry → Registry
put job_id entry m k = if job_id == k then entry else m k

abbrev pub is_some : Option OrchestrationJob → Bool
is_some none = false
is_some (some job) = true

-- A request, with the id that a creation draws.
pub data Request : Type 0 where
  create : String → CreateOrchestrationJobRequest → ℕ → Request
  update : String → UpdateOrchestrationJobRequest → ℕ → Request
  enable : String → Bool → ℕ → Request
  delete : String → Request

pub data Reply : Type 0 where
  changed : Answer OrchestrationJob → Reply
  deleted : Bool → Reply

abbrev KeepsId : Edit → Type 0
KeepsId edit = (job : OrchestrationJob) → (edit job).1.job_id ≡ job.job_id

abbrev after_edit : Edit → Option OrchestrationJob → Option OrchestrationJob
after_edit edit none = none
after_edit edit (some job) = some (edit job).1

abbrev answered : Answer Unit × OrchestrationJob → Answer OrchestrationJob
answered (ok u, job) = ok job
answered (err e, job) = err e

abbrev answer_of : Edit → Option OrchestrationJob → Answer OrchestrationJob
answer_of edit none = err "Job not found"
answer_of edit (some job) = answered (edit job)

view-append :
    (jobs : List OrchestrationJob) (job : OrchestrationJob) (k : String)
    → view jobs job.job_id ≡ none
    → view (jobs ++ (job ∷ [])) k ≡ put job.job_id (some job) (view jobs) k
unfolding view
view-append [] job k h = refl
view-append (j ∷ jobs) job k h = ground (
  arith,
  view-append jobs job k,
  eq_iff j.job_id job.job_id,
  eq_iff j.job_id k,
  eq_iff job.job_id k,
)

edited-list :
    (r : Answer Unit × OrchestrationJob) (jobs : List OrchestrationJob)
    → ((edited r jobs).1 ≡ r.1 ∷ jobs) × ((edited r jobs).0 ≡ answered r)
edited-list (ok u, job) jobs = (refl, refl)
edited-list (err e, job) jobs = (refl, refl)

view-alter :
    (job_id : String) (edit : Edit) (jobs : List OrchestrationJob) (k : String)
    → KeepsId edit
    → view (alter job_id edit jobs).1 k
      ≡ put job_id (after_edit edit (view jobs job_id)) (view jobs) k
unfolding view alter
view-alter job_id edit [] k h = ground arith
view-alter job_id edit (j ∷ jobs) k h = ground (
  arith,
  view-alter job_id edit jobs k h,
  edited-list (edit j) jobs,
  h j,
  eq_iff j.job_id job_id,
  eq_iff j.job_id k,
  eq_iff job_id k,
)

alter-answer :
    (job_id : String) (edit : Edit) (jobs : List OrchestrationJob)
    → (alter job_id edit jobs).0 ≡ answer_of edit (view jobs job_id)
unfolding view alter
alter-answer job_id edit [] = refl
alter-answer job_id edit (j ∷ jobs) =
    ground (arith, alter-answer job_id edit jobs, edited-list (edit j) jobs)

view-keep :
    (job_id : String) (jobs : List OrchestrationJob) (k : String)
    → view (keep (λ job. not (job.job_id == job_id)) jobs) k ≡ put job_id none (view jobs) k
unfolding view
view-keep job_id [] k = ground arith
view-keep job_id (j ∷ jobs) k =
    ground
      (arith, view-keep job_id jobs k, eq_iff j.job_id job_id, eq_iff j.job_id k, eq_iff job_id k)

keep-found :
    (job_id : String) (jobs : List OrchestrationJob)
    → not (eqb (length (keep (λ job. not (job.job_id == job_id)) jobs)) (length jobs))
      ≡ is_some (view jobs job_id)
unfolding view
keep-found job_id [] = refl
keep-found job_id (j ∷ jobs) = ground (
  arith,
  keep-found job_id jobs,
  length-keep {0} (λ (job : OrchestrationJob). not (job.job_id == job_id)) jobs,
)

module _ (cron : Cron) where
  -- The requests on the list, as the code performs them.
  unfoldable pub perform : Request → List OrchestrationJob → Reply × List OrchestrationJob
  unfolding create_job update_job set_job_enabled delete_job
  perform (create fresh request now) jobs =
      let (answer, jobs') = create_job cron fresh jobs request now in (changed answer, jobs')
  perform (update job_id request now) jobs =
      let (answer, jobs') = update_job cron jobs job_id request now in (changed answer, jobs')
  perform (enable job_id enabled now) jobs =
      let (answer, jobs') = set_job_enabled cron jobs job_id enabled now in (changed answer, jobs')
  perform (delete job_id) jobs =
      let (found, jobs') = delete_job jobs job_id in (deleted found, jobs')

  -- What a creation answers, which does not depend on the other jobs.
  unfoldable pub created : String → CreateOrchestrationJobRequest → ℕ → Answer OrchestrationJob
  created fresh request now =
      if empty_text (trim request.name)
      then err "Job name is required"
      else if empty_text (trim request.goal_template)
      then err "Job goal_template is required"
      else elim (validate_cron cron request.cron) [
        | err e ↦ err e
        | ok u ↦ ok (new_job cron fresh request now)
      ]

  abbrev pub place : Answer OrchestrationJob → Registry → Registry
  place (ok job) m = put job.job_id (some job) m
  place (err e) m = m

  -- The change of the entry under an id; there is none to change under an id without a job.
  abbrev pub change : String → Edit → Registry → Reply × Registry
  change job_id edit m =
      (changed (answer_of edit (m job_id)), put job_id (after_edit edit (m job_id)) m)

  -- The requests on a map.
  unfoldable pub meaning : Request → Registry → Reply × Registry
  unfolding created
  meaning (create fresh request now) m =
      (changed (created fresh request now), place (created fresh request now) m)
  meaning (update job_id request now) m = change job_id (update_edit cron request now) m
  meaning (enable job_id enabled now) m = change job_id (enable_edit cron enabled now) m
  meaning (delete job_id) m = (deleted (is_some (m job_id)), put job_id none m)

  -- The id that a creation draws is not in use.
  abbrev pub IsFresh : Request → Registry → Type 0
  IsFresh (create fresh request now) m = m fresh ≡ none
  IsFresh (update job_id request now) m = Unit
  IsFresh (enable job_id enabled now) m = Unit
  IsFresh (delete job_id) m = Unit

  update_edit-KeepsId :
      (request : UpdateOrchestrationJobRequest) (now : ℕ) → KeepsId (update_edit cron request now)
  unfolding update_edit
  update_edit-KeepsId request now job = ground arith

  enable_edit-KeepsId : (enabled : Bool) (now : ℕ) → KeepsId (enable_edit cron enabled now)
  unfolding enable_edit
  enable_edit-KeepsId enabled now job = refl

  create_job-eq :
      (fresh : String) (jobs : List OrchestrationJob) (request : CreateOrchestrationJobRequest)
      (now : ℕ) (k : String)
      → view jobs fresh ≡ none
      → ((create_job cron fresh jobs request now).0 ≡ created fresh request now)
        × (view (create_job cron fresh jobs request now).1 k
            ≡ place (created fresh request now) (view jobs) k)
  unfolding create_job created
  create_job-eq fresh jobs request now k h =
      ground (arith, view-append jobs (new_job cron fresh request now) k h)

  perform-meaning :
      (request : Request) (jobs : List OrchestrationJob)
      → IsFresh request (view jobs)
      → ((perform request jobs).0 ≡ (meaning request (view jobs)).0)
        × (view (perform request jobs).1 ≡ (meaning request (view jobs)).1)
  unfolding perform meaning
  perform-meaning (create fresh request now) jobs h = (
    ap changed (create_job-eq fresh jobs request now fresh h).0,
    fun_ext λ k. (create_job-eq fresh jobs request now k h).1,
  )
  perform-meaning (update job_id request now) jobs h = (
    ap changed (alter-answer job_id (update_edit cron request now) jobs),
    fun_ext λ k.
        view-alter job_id (update_edit cron request now) jobs k (update_edit-KeepsId request now),
  )
  perform-meaning (enable job_id enabled now) jobs h = (
    ap changed (alter-answer job_id (enable_edit cron enabled now) jobs),
    fun_ext λ k.
        view-alter job_id (enable_edit cron enabled now) jobs k (enable_edit-KeepsId enabled now),
  )
  perform-meaning (delete job_id) jobs h =
      (ap deleted (keep-found job_id jobs), fun_ext λ k. view-keep job_id jobs k)

  -- A machine that answers requests, on any kind of state.
  abbrev pub run : {S : Type 0} → (Request → S → Reply × S) → List Request → S → List Reply × S
  run step [] s = ([], s)
  run step (request ∷ requests) s =
      let (reply, s') = step request s in
      let (replies, s'') = run step requests s' in (reply ∷ replies, s'')

  abbrev pub AllFresh : List Request → Registry → Type 0
  AllFresh [] m = Unit
  AllFresh (request ∷ requests) m = IsFresh request m × AllFresh requests (meaning request m).1

  -- When each creation draws an id that is not in use, any sequence of requests is answered by the list
  -- as by the map from ids to jobs, and the list that is left has the jobs of the map that is left.
  pub run-Refines :
      (requests : List Request) (jobs : List OrchestrationJob)
      → AllFresh requests (view jobs)
      → ((run perform requests jobs).0 ≡ (run meaning requests (view jobs)).0)
        × (view (run perform requests jobs).1 ≡ (run meaning requests (view jobs)).1)
  run-Refines [] jobs h = (refl, refl)
  run-Refines (request ∷ requests) jobs (fresh, later) =
      let (reply, state) = perform-meaning request jobs fresh in
      let (replies, left) =
        subst
          (λ m.
            ((run perform requests (perform request jobs).1).0 ≡ (run meaning requests m).0)
            × (view (run perform requests (perform request jobs).1).1 ≡ (run meaning requests m).1))
          state
          (run-Refines requests (perform request jobs).1
            (subst (AllFresh requests) (sym state) later)) in
      (cc, left)
