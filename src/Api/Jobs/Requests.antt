-- ===== src/Api/Jobs/Requests.antt =====
-- crates/orion-api/src/orchestration.rs: the requests that change the list of jobs. The id of a new
-- job is an argument. A request that fails may have changed the job before: the list that it leaves is
-- beside the answer.
pub mod Refines
use orion_dock.Prelude.{
  ℕ, String, Bool, true, false, not, Option, none, some, List, [], ◌∷◌, ◌++◌, eqb, if◌then◌else◌,
  length, keep, ◌⧺◌, ◌==◌, empty_text, trim,
}
use orion_dock.Api.Jobs.{
  Answer, ok, err, OrchestrationJobMode, SignificancePolicy, OrchestrationJob, Cron, validate_cron,
  upcoming,
}

pub record CreateOrchestrationJobRequest : Type 0 where
  pub name : String
  pub cron : String
  pub mode : OrchestrationJobMode
  pub goal_template : String
  pub enabled : Bool
  pub significance_policy : SignificancePolicy

pub record UpdateOrchestrationJobRequest : Type 0 where
  pub name : Option String
  pub cron : Option String
  pub mode : Option OrchestrationJobMode
  pub goal_template : Option String
  pub enabled : Option Bool
  pub significance_policy : Option SignificancePolicy

-- A change of one job that may fail on the way.
abbrev pub Edit : Type 0
Edit = OrchestrationJob → Answer Unit × OrchestrationJob

abbrev pub and_then : Answer Unit × OrchestrationJob → Edit → Answer Unit × OrchestrationJob
and_then (ok u, job) k = k job
and_then (err e, job) k = (err e, job)

infixl 5 ◌>>◌
abbrev pub ◌>>◌ : Edit → Edit → Edit
(m >> k) job = and_then (m job) k

abbrev pub modify : (OrchestrationJob → OrchestrationJob) → Edit
modify f job = (ok tt, f job)

-- `if let Some(value) = request.field { … }`
abbrev pub with_field : {A : Type 0} → Option A → (A → Edit) → Edit
with_field none k job = (ok tt, job)
with_field (some value) k job = k value job

abbrev pub unless_empty : String → String → Edit → Edit
unless_empty text message k job = if empty_text text then (err message, job) else k job

abbrev pub checked : Answer Unit → Edit → Edit
checked (ok u) k job = k job
checked (err e) k job = (err e, job)

-- The answer and the list, once the job is edited
abbrev pub edited :
    Answer Unit × OrchestrationJob
    → List OrchestrationJob
    → Answer OrchestrationJob × List OrchestrationJob
edited (ok u, job) jobs = (ok job, job ∷ jobs)
edited (err e, job) jobs = (err e, job ∷ jobs)

-- `jobs.iter_mut().find(|j| j.job_id == job_id)` and the change of what is found
unfoldable pub alter :
    String → Edit → List OrchestrationJob → Answer OrchestrationJob × List OrchestrationJob
alter job_id edit [] = (err "Job not found", [])
alter job_id edit (job ∷ jobs) =
    let (answer, rest) = alter job_id edit jobs in
    if job.job_id == job_id then edited (edit job) jobs else (answer, job ∷ rest)

abbrev pub new_job : Cron → String → CreateOrchestrationJobRequest → ℕ → OrchestrationJob
new_job cron fresh request now = record {
  job_id = fresh;
  name = trim request.name;
  cron = trim request.cron;
  enabled = request.enabled;
  mode = request.mode;
  goal_template = trim request.goal_template;
  significance_policy = request.significance_policy;
  created_at = now;
  updated_at = now;
  last_run_at = none;
  next_run_at = upcoming cron (trim request.cron) now;
  last_status = none;
  last_significance = none;
}

module _ (cron : Cron) where
  unfoldable pub create_job :
      String
      → List OrchestrationJob
      → CreateOrchestrationJobRequest
      → ℕ
      → Answer OrchestrationJob × List OrchestrationJob
  unfolding trim
  create_job fresh jobs request now =
      if empty_text (trim request.name)
      then (err "Job name is required", jobs)
      else if empty_text (trim request.goal_template)
      then (err "Job goal_template is required", jobs)
      else elim (validate_cron cron request.cron) [
        | err e ↦ (err e, jobs)
        | ok u ↦ let job = new_job cron fresh request now in (ok job, jobs ++ (job ∷ []))
      ]

  unfoldable pub refresh : ℕ → Edit
  unfolding upcoming
  refresh now =
      modify λ job. record job { updated_at = now; next_run_at = upcoming cron job.cron now }

  unfoldable pub update_edit : UpdateOrchestrationJobRequest → ℕ → Edit
  unfolding refresh trim validate_cron
  update_edit request now =
      with_field request.name (λ name.
        unless_empty (trim name) "Job name cannot be empty"
          (modify λ job. record job { name = trim name }))
      >> with_field request.cron (λ expr.
        checked (validate_cron cron (trim expr)) (modify λ job. record job { cron = trim expr }))
      >> with_field request.mode (λ mode. modify λ job. record job { mode = mode })
      >> with_field request.goal_template (λ text.
        unless_empty (trim text) "Job goal_template cannot be empty"
          (modify λ job. record job { goal_template = trim text }))
      >> with_field request.enabled (λ b. modify λ job. record job { enabled = b })
      >> with_field request.significance_policy
          (λ policy. modify λ job. record job { significance_policy = policy })
      >> refresh now

  unfoldable pub update_job :
      List OrchestrationJob
      → String
      → UpdateOrchestrationJobRequest
      → ℕ
      → Answer OrchestrationJob × List OrchestrationJob
  unfolding alter update_edit
  update_job jobs job_id request now = alter job_id (update_edit request now) jobs

  unfoldable pub enable_edit : Bool → ℕ → Edit
  unfolding refresh
  enable_edit enabled now = (modify λ job. record job { enabled = enabled }) >> refresh now

  unfoldable pub set_job_enabled :
      List OrchestrationJob → String → Bool → ℕ → Answer OrchestrationJob × List OrchestrationJob
  unfolding alter enable_edit
  set_job_enabled jobs job_id enabled now = alter job_id (enable_edit enabled now) jobs

unfoldable pub delete_job : List OrchestrationJob → String → Bool × List OrchestrationJob
delete_job jobs job_id =
    let kept = keep (λ job. not (job.job_id == job_id)) jobs in
    (not (eqb (length kept) (length jobs)), kept)
