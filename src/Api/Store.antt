-- ===== src/Api/Store.antt =====
-- crates/orion-api/src/orchestration.rs: the files of the jobs and of their log. `Format` is serde_json's
-- part: the current form of a file, the old one (a bare list), and the printed form.
pub mod RoundTrip
use orion_dock.Prelude.{
  ℕ, String, Bool, true, false, Option, none, some, List, [], ◌∷◌, ◌++◌, ltb, if◌then◌else◌, length,
  take, ◌⧺◌, is_blank,
}
use orion_dock.Tools.Host.{FilePath, Io, Os}
use orion_dock.Api.Jobs.{
  Answer, ok, err, OrchestrationJobMode, SignificanceLevel, OrchestrationDecision, OrchestrationJob,
}

pub record OrchestrationJobLogEntry : Type 0 where
  pub entry_id : String
  pub job_id : String
  pub job_name : String
  pub mode : OrchestrationJobMode
  pub started_at : ℕ
  pub completed_at : ℕ
  pub significance : SignificanceLevel
  pub decision : OrchestrationDecision
  pub status : String
  pub summary : String
  pub task_id : Option String

pub record Format (A : Type 0) : Type 0 where
  pub parse_file : String → Option (List A)
  pub parse_list : String → Io (List A)
  pub print : List A → Io String

infixl 5 ◌>>=◌
abbrev pub ◌>>=◌ : {A B : Type 0} → Answer A → (A → Answer B) → Answer B
ok a >>= k = k a
err e >>= k = err e

-- `map_err`
abbrev pub or_err : {A : Type 0} → String → Io A → Answer A
or_err message (Io.done a) = ok a
or_err message (Io.failed e) = err (message ⧺ e)

abbrev pub parsed : {A : Type 0} → String → Format A → String → Answer (List A)
parsed message format content = elim (format.parse_file content) [
  | some entries ↦ ok entries
  | none ↦ or_err message (format.parse_list content)
]

abbrev pub jobs_file_path : FilePath → FilePath
jobs_file_path agent_dir = agent_dir ++ ("orchestration_jobs.json" ∷ [])

abbrev pub logs_file_path : FilePath → FilePath
logs_file_path agent_dir = agent_dir ++ ("orchestration_job_logs.json" ∷ [])

-- `logs.truncate(limit)`
abbrev pub limited : {A : Type 0} → Option ℕ → List A → List A
limited none entries = entries
limited (some limit) entries = take limit entries

-- The log with a new entry at its front, cut to `keep_last`.
abbrev pub prepended : {A : Type 0} → A → ℕ → List A → List A
prepended entry keep_last logs =
    if ltb keep_last (length (entry ∷ logs)) then take keep_last (entry ∷ logs) else entry ∷ logs

module _ {W : Type 0} (os : Os W) where
  -- The common part of `list_jobs` and `load_logs`
  unfoldable pub read_entries :
      {A : Type 0} → String → String → Format A → FilePath → W → Answer (List A)
  unfolding is_blank
  read_entries read_error parse_error format path w =
      if os.exists path w
      then (do
        content ← or_err read_error (os.read_to_string path w)
        (if is_blank content then ok [] else parsed parse_error format content))
      else ok []

  unfoldable pub list_jobs : Format OrchestrationJob → FilePath → W → Answer (List OrchestrationJob)
  unfolding read_entries
  list_jobs format agent_dir w =
      read_entries "Read jobs file: " "Parse jobs file: " format (jobs_file_path agent_dir) w

  abbrev pub written : String → Io Unit × W → Answer Unit × W
  written message (answer, w) = (or_err message answer, w)

  abbrev pub write_printed : String → String → FilePath → Io String → W → Answer Unit × W
  write_printed print_error write_error path (Io.failed e) w = (err (print_error ⧺ e), w)
  write_printed print_error write_error path (Io.done content) w =
      written write_error (os.write path content w)

  unfoldable pub save_jobs :
      Format OrchestrationJob → FilePath → List OrchestrationJob → W → Answer Unit × W
  save_jobs format agent_dir jobs w =
      write_printed "Serialize jobs: " "Write jobs file: " (jobs_file_path agent_dir)
        (format.print jobs) w

  unfoldable pub load_logs :
      Format OrchestrationJobLogEntry
      → FilePath
      → Option ℕ
      → W
      → Answer (List OrchestrationJobLogEntry)
  unfolding read_entries
  load_logs format agent_dir limit w = do
    logs ← read_entries "Read logs file: " "Parse logs file: " format (logs_file_path agent_dir) w
    ok (limited limit logs)

  abbrev pub append_loaded :
      Format OrchestrationJobLogEntry
      → FilePath
      → OrchestrationJobLogEntry
      → ℕ
      → Answer (List OrchestrationJobLogEntry)
      → W
      → Answer Unit × W
  append_loaded format agent_dir entry keep_last (err e) w = (err e, w)
  append_loaded format agent_dir entry keep_last (ok logs) w =
      write_printed "Serialize logs: " "Write logs file: " (logs_file_path agent_dir)
        (format.print (prepended entry keep_last logs)) w

  unfoldable pub append_log_entry :
      Format OrchestrationJobLogEntry
      → FilePath
      → OrchestrationJobLogEntry
      → ℕ
      → W
      → Answer Unit × W
  unfolding load_logs
  append_log_entry format agent_dir entry keep_last w =
      append_loaded format agent_dir entry keep_last (load_logs format agent_dir none w) w
