-- ===== src/Api/Jobs.antt =====
-- crates/orion-api/src/orchestration.rs: scheduled jobs, their significance and their changes in a
-- list. A time is a number; `Cron` is the cron crate, and `lower` the standard library's
-- `to_lowercase`.
pub mod Requests
use orion_dock.Prelude.{
  ℕ, String, Bool, true, false, not, Option, none, some, List, [], ◌∷◌, ◌++◌, map, leb, eqb,
  if◌then◌else◌, is_empty, length, any, keep, ◌⧺◌, ◌==◌, contains_text, concat,
}

pub data Answer (A : Type 0) : Type 0 where
  ok : A → Answer A
  err : String → Answer A

pub data OrchestrationJobMode : Type 0 where
  id_check agentic_run : OrchestrationJobMode

pub data SignificanceLevel : Type 0 where
  low medium high : SignificanceLevel

pub data OrchestrationDecision : Type 0 where
  silent_log spawn_agentic flag_mentor : OrchestrationDecision

pub record SignificancePolicy : Type 0 where
  pub medium_keywords : List String
  pub high_keywords : List String
  pub escalate_medium : Bool
  pub flag_high_to_mentor : Bool

abbrev pub default_policy : SignificancePolicy
default_policy = record {
  medium_keywords = [];
  high_keywords = [];
  escalate_medium = false;
  flag_high_to_mentor = true;
}

pub record OrchestrationJob : Type 0 where
  pub job_id : String
  pub name : String
  pub cron : String
  pub enabled : Bool
  pub mode : OrchestrationJobMode
  pub goal_template : String
  pub significance_policy : SignificancePolicy
  pub created_at : ℕ
  pub updated_at : ℕ
  pub last_run_at : Option ℕ
  pub next_run_at : Option ℕ
  pub last_status : Option String
  pub last_significance : Option SignificanceLevel

-- A parsed schedule answers the first time it fires after another, if there is one.
abbrev pub Schedule : Type 0
Schedule = ℕ → Option ℕ

abbrev pub Cron : Type 0
Cron = String → Answer Schedule

abbrev pub default_high_keywords : List String
default_high_keywords =
    "security alert" ∷ "unauthorized" ∷ "compromised" ∷ "breach" ∷ "critical" ∷ "incident" ∷ "fraud"
    ∷ "malware" ∷ "ransomware" ∷ "account locked" ∷ []

abbrev pub default_medium_keywords : List String
default_medium_keywords =
    "warning" ∷ "verify" ∷ "new sign-in" ∷ "new login" ∷ "failed login" ∷ "quota" ∷ "rate limit"
    ∷ "degraded" ∷ "error" ∷ "retry" ∷ []

abbrev pub or_keywords : List String → List String → List String
or_keywords keywords defaults = if is_empty keywords then defaults else keywords

unfoldable pub mentions : (String → String) → String → List String → Bool
unfolding contains_text
mentions lower text keywords = any (λ keyword. contains_text (lower text) (lower keyword)) keywords

unfoldable pub assess_significance :
    (String → String) → String → SignificancePolicy → SignificanceLevel
unfolding mentions
assess_significance lower text policy =
    if mentions lower text (or_keywords policy.high_keywords default_high_keywords)
    then SignificanceLevel.high
    else if mentions lower text (or_keywords policy.medium_keywords default_medium_keywords)
    then SignificanceLevel.medium
    else SignificanceLevel.low

unfoldable pub decide_action :
    OrchestrationJobMode → SignificanceLevel → SignificancePolicy → OrchestrationDecision
decide_action OrchestrationJobMode.agentic_run significance policy =
    OrchestrationDecision.spawn_agentic
decide_action OrchestrationJobMode.id_check SignificanceLevel.low policy =
    OrchestrationDecision.silent_log
decide_action OrchestrationJobMode.id_check SignificanceLevel.medium policy =
    if policy.escalate_medium
    then OrchestrationDecision.spawn_agentic
    else OrchestrationDecision.silent_log
decide_action OrchestrationJobMode.id_check SignificanceLevel.high policy =
    if policy.flag_high_to_mentor
    then OrchestrationDecision.flag_mentor
    else OrchestrationDecision.spawn_agentic

abbrev pub invalid_cron : String → String → String
invalid_cron expr e = concat ("Invalid cron expression '" ∷ expr ∷ "': " ∷ e ∷ [])

module _ (cron : Cron) where
  unfoldable pub validate_cron : String → Answer Unit
  validate_cron expr = elim (cron expr) [ ok schedule ↦ ok tt | err e ↦ err (invalid_cron expr e) ]

  unfoldable pub next_run_at : String → ℕ → Answer ℕ
  next_run_at expr from = elim (cron expr) [
    | err e ↦ err (invalid_cron expr e)
    | ok schedule ↦ elim (schedule from) [
      | none ↦ err "Cron expression does not yield a future run"
      | some next ↦ ok next
    ]
  ]

  -- `next_run_at(…).ok()`
  unfoldable pub upcoming : String → ℕ → Option ℕ
  unfolding next_run_at
  upcoming expr from = elim (next_run_at expr from) [ ok next ↦ some next | err e ↦ none ]

  abbrev pub reference : OrchestrationJob → ℕ
  reference job = elim (job.last_run_at) [ none ↦ job.created_at | some at ↦ at ]

  unfoldable pub is_job_due : OrchestrationJob → ℕ → Answer Bool
  is_job_due job now = elim (cron job.cron) [
    | err e ↦ err (invalid_cron job.cron e)
    | ok schedule ↦ elim (schedule (reference job)) [
      | none ↦ ok false
      | some run_at ↦ ok (leb run_at now)
    ]
  ]

  unfoldable pub update_job_after_execution :
      OrchestrationJob → ℕ → SignificanceLevel → String → OrchestrationJob
  unfolding upcoming
  update_job_after_execution job now significance status = record job {
    last_run_at = some now;
    last_significance = some significance;
    last_status = some status;
    updated_at = now;
    next_run_at = upcoming job.cron now;
  }

abbrev pub level_debug : SignificanceLevel → String
level_debug SignificanceLevel.low = "Low"
level_debug SignificanceLevel.medium = "Medium"
level_debug SignificanceLevel.high = "High"

unfoldable pub build_id_check_prompt : OrchestrationJob → String
unfolding concat
build_id_check_prompt job = concat (
    "You are Id running a lightweight scheduled background check.\nJob: " ∷ job.name ∷ "\nTask: "
    ∷ job.goal_template
    ∷ "\n\nKeep this short and concrete:\n1) what you checked,\n2) notable signals,\n3) risk level clues.\nDo not ask the mentor questions."
    ∷ [])

unfoldable pub make_mentor_attention_message :
    OrchestrationJob → SignificanceLevel → String → String
unfolding concat
make_mentor_attention_message job significance summary = concat (
    "[Orchestration Alert] Job '"
    ∷ job.name
    ∷ "' detected "
    ∷ level_debug significance
    ∷ " significance.\n"
    ∷ summary
    ∷ [])
