-- ===== src/Api/Store/RoundTrip.antt =====
-- What comes back from the files of crates/orion-api/src/orchestration.rs after a write.
use orion_dock.Prelude.{
  Bool-cases, zero, suc, ℕ, ◌≤◌, String, ◌≡◌, refl, sym, ap, ◌∙◌, inl, inr, true, false, none, some,
  List, [], ◌∷◌, arith, ltb, length, take, is_blank,
}
use orion_dock.Tools.Host.{FilePath, Io, Os}
use orion_dock.Api.Jobs.{Answer, ok, err, OrchestrationJob}
use orion_dock.Api.Store.{
  ◌>>=◌, OrchestrationJobLogEntry, Format, parsed, read_entries, list_jobs, save_jobs, load_logs,
  append_log_entry, write_printed, written, append_loaded, prepended, jobs_file_path,
  logs_file_path,
}

-- A file that was written is there and reads as it was written.
abbrev pub ReadsBack : {W : Type 0} → Os W → Type 0
ReadsBack {W} os =
    (path : FilePath) (content : String) (w w' : W)
    → os.write path content w ≡ (Io.done tt, w')
    → (os.exists path w' ≡ true) × (os.read_to_string path w' ≡ Io.done content)

-- The library parses what it prints, which is never blank.
abbrev pub Prints : {A : Type 0} → Format A → Type 0
Prints {A} format =
    (entries : List A) (content : String)
    → format.print entries ≡ Io.done content
    → (format.parse_file content ≡ some entries) × (is_blank content ≡ false)

written-ok :
    {W : Type 0} (os : Os W) (message : String) (r : Io Unit × W) {u : Unit} {w' : W}
    → written os message r ≡ (ok u, w')
    → r ≡ (Io.done tt, w')
written-ok os message (Io.done u, w) h = ap (λ p. (Io.done tt, p.1)) h
written-ok os message (Io.failed e, w) h = let h' = ap (λ p. p.0) h in cc

module _ {W A : Type 0} (os : Os W) (reads : ReadsBack os) (format : Format A)
    (prints : Prints format) where
  printed-read :
      (print_error write_error read_error parse_error : String) (path : FilePath) (entries : List A)
      (answer : Io String) (w w' : W)
      → format.print entries ≡ answer
      → write_printed os print_error write_error path answer w ≡ (ok tt, w')
      → read_entries os read_error parse_error format path w' ≡ ok entries
  unfolding read_entries
  printed-read pe we re se path entries (Io.failed e) w w' printed h =
      let h' = ap (λ p. p.0) h in cc
  printed-read pe we re se path entries (Io.done content) w w' printed h =
      let (there, found) = reads path content w w' (written-ok os we (os.write path content w) h) in
      let (parses, solid) = prints entries content printed in
      rw (there, found, solid) (rw (parsed, parses) refl)

take_all : {A : Type 0} (n : ℕ) (xs : List A) → length xs ≤ n → take n xs ≡ xs
take_all zero [] h = refl
take_all zero (x ∷ xs) h = absurd (omega arith)
take_all (suc n) [] h = refl
take_all (suc n) (x ∷ xs) h = ap (◌∷◌ x) (take_all n xs (omega arith))

prepended-eq :
    {A : Type 0} (entry : A) (keep_last : ℕ) (logs : List A)
    → prepended entry keep_last logs ≡ take keep_last (entry ∷ logs)
prepended-eq entry keep_last logs = elim (Bool-cases (ltb keep_last (length (entry ∷ logs)))) [
  | inl long ↦ rw long refl
  | inr short ↦ rw short (sym (take_all keep_last (entry ∷ logs) (ground arith)))
]

module _ {W : Type 0} (os : Os W) (reads : ReadsBack os) where
  -- When the file system gives back what was written and the library parses what it prints: jobs that
  -- were saved are listed as they were.
  pub list_jobs-save_jobs :
      (format : Format OrchestrationJob) (prints : Prints format) (agent_dir : FilePath)
      (jobs : List OrchestrationJob) (w w' : W)
      → save_jobs os format agent_dir jobs w ≡ (ok tt, w')
      → list_jobs os format agent_dir w' ≡ ok jobs
  unfolding save_jobs list_jobs
  list_jobs-save_jobs format prints agent_dir jobs w w' h =
      printed-read os reads format prints "Serialize jobs: " "Write jobs file: " "Read jobs file: "
        "Parse jobs file: " (jobs_file_path agent_dir) jobs (format.print jobs) w w' refl h

  module _ (format : Format OrchestrationJobLogEntry) (prints : Prints format)
      (agent_dir : FilePath) (entry : OrchestrationJobLogEntry) (keep_last : ℕ) where
    loaded-append :
        (before : Answer (List OrchestrationJobLogEntry)) (w w' : W)
        → append_loaded os format agent_dir entry keep_last before w ≡ (ok tt, w')
        → (logs : List OrchestrationJobLogEntry) × (before ≡ ok logs)
          × (load_logs os format agent_dir none w' ≡ ok (take keep_last (entry ∷ logs)))
    unfolding load_logs
    loaded-append (err e) w w' h = let h' = ap (λ p. p.0) h in cc
    loaded-append (ok logs) w w' h =
        let now =
          printed-read os reads format prints "Serialize logs: " "Write logs file: "
            "Read logs file: " "Parse logs file: " (logs_file_path agent_dir)
            (prepended entry keep_last logs) _ w w' refl h in
        (logs, refl, ap (λ r. r >>= ok) now ∙ ap ok (prepended-eq entry keep_last logs))

    -- Under the same conditions, an entry that was appended stands first, before the entries that the log
    -- had, of which the newest are kept, up to the number asked for.
    pub load_logs-append_log_entry :
        (w w' : W)
        → append_log_entry os format agent_dir entry keep_last w ≡ (ok tt, w')
        → (logs : List OrchestrationJobLogEntry) × (load_logs os format agent_dir none w ≡ ok logs)
          × (load_logs os format agent_dir none w' ≡ ok (take keep_last (entry ∷ logs)))
    unfolding append_log_entry
    load_logs-append_log_entry w w' h = loaded-append (load_logs os format agent_dir none w) w w' h
