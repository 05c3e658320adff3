-- ===== src/Tools/Filesystem/Reads.antt =====
-- What `read_file` of skills/skill-filesystem/src/lib.rs gives back.
use orion_dock.Prelude.{◌≤◌, ℕ, subst, String, ◌≡◌, inl, inr, true, some, List, arith}
use orion_dock.Skills.Registry.{ok}
use orion_dock.Skills.Executor.{ToolOutput}
use orion_dock.Tools.Host.{FilePath, Io, Os, Json}
use orion_dock.Tools.Filesystem.{Session, validate_path, read_file, read_valid, file_fields}
use orion_dock.Tools.Filesystem.Paths.{Io-cases, Inside, and_then-ok, validate_path-ok}

module _ {Value W : Type 0} (json : Json Value) (os : Os W) (debug : List String → String) where
  read_valid-Inside :
      (path_str : String) (path : FilePath) (s t : Session Value W) (out : ToolOutput Value)
      → read_valid json os debug path_str path s ≡ (ok out, t)
      → out.success ≡ true
      → (size : ℕ) × (content : String) × (os.metadata_len path s.world ≡ Io.done size)
        × (size ≤ 1048576)
        × (os.read_to_string path s.world ≡ Io.done content)
        × (out.payload ≡ some (json.object (file_fields json os debug path content size)))
  read_valid-Inside path_str path s t out h good = elim (Io-cases (os.metadata_len path s.world)) [
    | inr (e, failed) ↦ absurd (ground arith)
    | inl (size, measured) ↦ elim (Io-cases (os.read_to_string path s.world)) [
      | inr (e, failed) ↦ absurd (ground arith)
      | inl (content, found) ↦ (size, content, measured, ground arith, found, ground arith)
    ]
  ]

  -- A file whose contents come back lies inside an allowed root, has at most a megabyte, and what comes
  -- back is its text.
  pub read_file-Inside :
      (path_str : String) (s t : Session Value W) (out : ToolOutput Value)
      → read_file json os debug path_str s ≡ (ok out, t)
      → out.success ≡ true
      → (path : FilePath) × (size : ℕ) × (content : String) × Inside json os debug
          s.skill.allowed_roots s.world path
        × (os.metadata_len path s.world ≡ Io.done size)
        × (size ≤ 1048576)
        × (os.read_to_string path s.world ≡ Io.done content)
        × (out.payload ≡ some (json.object (file_fields json os debug path content size)))
  unfolding read_file
  read_file-Inside path_str s t out h good =
      let (path, u, valid, rest) =
        and_then-ok json os debug (validate_path json os debug path_str s)
          (read_valid json os debug path_str) out t h in
      let (same, inside) = validate_path-ok json os debug path_str path s u valid in
      let rest' = subst (λ v. read_valid json os debug path_str path v ≡ (ok out, t)) same rest in
      let (size, content, measured, small, found, payload) =
        read_valid-Inside path_str path s t out rest' good in
      (path, size, content, inside, measured, small, found, payload)
