-- ===== src/Api/Tests.antt =====
-- A file system of written files and a job for the theorems on crates/orion-api/src/orchestration.rs.
use native.Mathlib.Decide.{ℕ_discrete}
use orion_dock.Prelude.{
  String, ◌≡◌, refl, ap, ◌∙◌, Bool, true, false, Option, none, some, List, [], ◌∷◌, is_blank, map,
  ◌+◌, if◌then◌else◌, lookup, insert, remove, lookup-insert, eq_refl, trim, ◌==◌, take, Bool-cases,
  eq_iff, not_both, inl, inr, sym, Dict, join,
}
use orion_dock.Tools.Host.{Io, Os, display}
use orion_dock.Api.Jobs.{
  validate_cron, ok, err, OrchestrationJobMode, SignificanceLevel, OrchestrationDecision,
}
use orion_dock.Api.Jobs.{Cron, default_policy}
use orion_dock.Api.Jobs.Requests.{CreateOrchestrationJobRequest, UpdateOrchestrationJobRequest}
use orion_dock.Api.Jobs.Requests.Refines.{
  Request, create, update, enable, delete, AllFresh, view, perform, meaning, run, run-Refines,
}
use orion_dock.Api.Store.{OrchestrationJobLogEntry, Format, load_logs, append_log_entry}
use orion_dock.Api.Store.RoundTrip.{ReadsBack, Prints, load_logs-append_log_entry}

String_discrete : Discrete String
String_discrete s t = elim (Bool-cases (s == t)) [
  | inl same ↦ yes ((eq_iff s t).0 same)
  | inr other ↦ no (λ e. not_both ((eq_iff s t).1 e) other)
]

Mode-discrete : Discrete OrchestrationJobMode
Mode-discrete = hlevel

Level-discrete : Discrete SignificanceLevel
Level-discrete = hlevel

Decision-discrete : Discrete OrchestrationDecision
Decision-discrete = hlevel

Entry-discrete : Discrete OrchestrationJobLogEntry
Entry-discrete =
    hlevel (String_discrete, ℕ_discrete, Mode-discrete, Level-discrete, Decision-discrete)

-- A world is what was written, by the names of the files.
abbrev disk : Os (Dict String)
disk = record {
  exists = λ path w. is_some (lookup (display path) w);
  is_file = λ path w. is_some (lookup (display path) w);
  is_dir = λ path w. false;
  canonicalize = λ path w. Io.done path;
  metadata_len = λ path w. Io.done 0;
  read_to_string = λ path w. found (lookup (display path) w);
  create_dir_all = λ path w. (Io.done tt, w);
  write = λ path content w. (Io.done tt, insert (display path) content w);
  read_dir = λ path w. Io.done [];
  glob = λ pattern w. Io.done [];
}
  where
    is_some : Option String → Bool
    is_some none = false
    is_some (some s) = true

    found : Option String → Io String
    found none = Io.failed "no such file"
    found (some s) = Io.done s

disk-ReadsBack : ReadsBack disk
disk-ReadsBack path content w w' h =
    let here : lookup (display path) w' ≡ some content =
      ap (λ r. lookup (display path) r.1) (sym h)
      ∙ (lookup-insert (display path) (display path) content w
          ∙ rw (eq_refl (display path)) refl) in
    rw here (refl, refl)

abbrev entry : OrchestrationJobLogEntry
entry = record {
  entry_id = "e1";
  job_id = "j1";
  job_name = "check";
  mode = OrchestrationJobMode.id_check;
  started_at = 1;
  completed_at = 2;
  significance = SignificanceLevel.low;
  decision = OrchestrationDecision.silent_log;
  status = "success";
  summary = "";
  task_id = none;
}

abbrev text_of : {e : OrchestrationJobLogEntry} → Dec (e ≡ entry) → Io String
text_of (yes h) = Io.done "[e1]"
text_of (no h) = Io.failed "unknown"

-- A JSON library that knows one entry.
abbrev one_entry : Format OrchestrationJobLogEntry
one_entry = record {
  parse_file = λ text. some (entry ∷ []);
  parse_list = λ text. Io.done (entry ∷ []);
  print = print;
}
  where
    print : List OrchestrationJobLogEntry → Io String
    print (e ∷ []) = text_of (Entry-discrete e entry)
    print _ = Io.failed "unknown"

text_of-done :
    {e : OrchestrationJobLogEntry} (d : Dec (e ≡ entry)) {content : String}
    → text_of d ≡ Io.done content
    → (e ≡ entry) × (content ≡ "[e1]")
text_of-done (yes h) e = (h, cc)
text_of-done (no h) e = cc

text_of-entry : (d : Dec (entry ≡ entry)) → text_of d ≡ Io.done "[e1]"
text_of-entry (yes h) = refl
text_of-entry (no h) = absurd (h refl)

one_entry-Prints : Prints one_entry
unfolding is_blank
one_entry-Prints [] content h = cc
one_entry-Prints (e ∷ []) content h =
    let (same, text) = text_of-done (Entry-discrete e entry) h in (rw same refl, rw text refl)
one_entry-Prints (e ∷ f ∷ es) content h = cc

abbrev after : Dict String
after = ("/agent/orchestration_job_logs.json", "[e1]") ∷ []

test_append : append_log_entry disk one_entry ("/" ∷ "agent" ∷ []) entry 5 [] ≡ (ok tt, after)
unfolding append_log_entry display lookup insert remove join
test_append = rw (text_of-entry (Entry-discrete entry entry)) refl

load_logs-append_log_entry_example :
    (logs : List OrchestrationJobLogEntry) × (load_logs disk one_entry ("/" ∷ "agent" ∷ []) none []
      ≡ ok logs)
    × (load_logs disk one_entry ("/" ∷ "agent" ∷ []) none after ≡ ok (take 5 (entry ∷ logs)))
load_logs-append_log_entry_example =
    load_logs-append_log_entry disk disk-ReadsBack one_entry one_entry-Prints ("/" ∷ "agent" ∷ [])
      entry 5 [] after test_append

-- A cron library that knows schedules by the hour.
abbrev hourly : Cron
hourly expr = if expr == "0 * * * *" then ok (λ from. some (from + 3600)) else err "bad"

abbrev wanted : CreateOrchestrationJobRequest
wanted = record {
  name = "mail";
  cron = "0 * * * *";
  mode = OrchestrationJobMode.id_check;
  goal_template = "look for alerts";
  enabled = true;
  significance_policy = default_policy;
}

-- The schedule is wrong, so the new name stays and the rest is left out.
abbrev renamed : UpdateOrchestrationJobRequest
renamed = record {
  name = some "post";
  cron = some "never";
  mode = none;
  goal_template = none;
  enabled = none;
  significance_policy = none;
}

abbrev asked : List Request
asked =
    create "j1" wanted 10
    ∷ update "j1" renamed 20
    ∷ enable "j1" false 30
    ∷ create "j2" wanted 40
    ∷ delete "j1"
    ∷ []

test_asked : AllFresh hourly asked (view [])
unfolding view meaning trim validate_cron
test_asked = (refl, (tt, (tt, (refl, (tt, tt)))))

test_ids :
    map {B = String × String}
      (λ job. (job.job_id, job.name))
      (run hourly (perform hourly) asked []).1
    ≡ ("j2", "mail") ∷ []
unfolding perform
test_ids = refl

run-Refines_example :
    ((run hourly (perform hourly) asked []).0 ≡ (run hourly (meaning hourly) asked (view [])).0)
    × (view (run hourly (perform hourly) asked []).1
        ≡ (run hourly (meaning hourly) asked (view [])).1)
run-Refines_example = run-Refines hourly asked [] test_asked
