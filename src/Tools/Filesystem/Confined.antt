-- ===== src/Tools/Filesystem/Confined.antt =====
-- What the tools of skills/skill-filesystem/src/lib.rs leave of the world.
use orion_dock.Prelude.{
  subst, String, ◌≡◌, refl, sym, ap, ◌∙◌, ◌⊎◌, inl, inr, Bool, true, false, Option, none, some,
  List, arith, if◌then◌else◌, ◌==◌,
}
use orion_dock.Skills.Registry.{SkillResult, ok, err}
use orion_dock.Skills.Executor.{ToolOutput, ToolParams}
use orion_dock.Tools.Host.{FilePath, parent, Os, Json}
use orion_dock.Tools.Filesystem.{
  Session, Run, and_then, validate_path, read_file, write_file, list_directory, search_files,
  dispatch, execute_tool, attach_failure, with_failure, required, write_below,
}
use orion_dock.Tools.Filesystem.Paths.{Inside, Calm, validate_path-Calm, validate_path-ok}

module _ {Value W : Type 0} (json : Json Value) (os : Os W) (debug : List String → String) where
  -- What a call leaves of the world: as it was, or after directories above a path inside the roots
  -- were made, or after that path was written as well.
  pub data Confined (roots : List FilePath) (w : W) : W → Type 0 where
    untouched : Confined roots w w
    created :
        (path above : FilePath)
        → Inside json os debug roots w path
        → parent path ≡ some above
        → Confined roots w (os.create_dir_all above w).1
    written :
        (path : FilePath) (content : String)
        → Inside json os debug roots w path
        → parent path ≡ none
        → Confined roots w (os.write path content w).1
    created_written :
        (path above : FilePath) (content : String)
        → Inside json os debug roots w path
        → parent path ≡ some above
        → Confined roots w (os.write path content (os.create_dir_all above w).1).1

  Kept : Session Value W → Session Value W → Type 0
  Kept s s' =
      Confined s.skill.allowed_roots s.world s'.world
      × (s'.skill.allowed_roots ≡ s.skill.allowed_roots)

  calm-Kept : (s s' : Session Value W) → Calm s s' → Kept s s'
  unfolding Kept
  calm-Kept s s' (same, roots) =
      (subst (Confined s.skill.allowed_roots s.world) (sym same) Confined.untouched, roots)

  read_file-Calm :
      (path_str : String) (s : Session Value W) → Calm s (read_file json os debug path_str s).1
  unfolding read_file
  read_file-Calm path_str s = ground (arith, validate_path-Calm json os debug path_str s)

  list_directory-Calm :
      (path_str : String) (s : Session Value W) → Calm s (list_directory json os debug path_str s).1
  unfolding list_directory
  list_directory-Calm path_str s = ground (arith, validate_path-Calm json os debug path_str s)

  search_files-Calm :
      (pattern path_str : String) (s : Session Value W)
      → Calm s (search_files json os debug pattern path_str s).1
  unfolding search_files
  search_files-Calm pattern path_str s = ground (arith, validate_path-Calm json os debug path_str s)

  write_below-none :
      (content : String) (path : FilePath) (s : Session Value W)
      → Calm
          (record s { world = (os.write path content s.world).1 })
          (write_below json os debug content path none s).1
  write_below-none content path s = ground arith

  write_below-some :
      (content : String) (path above : FilePath) (s : Session Value W)
      → let made = (os.create_dir_all above s.world).1 in
        Calm (record s { world = made }) (write_below json os debug content path (some above) s).1
        ⊎ Calm
            (record s { world = (os.write path content made).1 })
            (write_below json os debug content path (some above) s).1
  write_below-some content path above s = ground arith

  write_below-Kept :
      (content : String) (path : FilePath) (above : Option FilePath) (s : Session Value W)
      → Inside json os debug s.skill.allowed_roots s.world path
      → parent path ≡ above
      → Kept s (write_below json os debug content path above s).1
  unfolding Kept
  write_below-Kept content path none s inside e =
      let (world, roots) = write_below-none content path s in
      (
        subst (Confined s.skill.allowed_roots s.world) (sym world)
            (Confined.written path content inside e),
        roots,
      )
  write_below-Kept content path (some above) s inside e =
      elim (write_below-some content path above s) [
        | inl (world, roots) ↦ (
          subst (Confined s.skill.allowed_roots s.world) (sym world)
              (Confined.created path above inside e),
          roots,
        )
        | inr (world, roots) ↦ (
          subst (Confined s.skill.allowed_roots s.world) (sym world)
              (Confined.created_written path above content inside e),
          roots,
        )
      ]

  write_valid-Kept :
      (path_str content : String) (s : Session Value W) (r : SkillResult FilePath × Session Value W)
      → validate_path json os debug path_str s ≡ r
      → Kept s
          (and_then json os debug r
            (λ path. write_below json os debug content path (parent path))).1
  unfolding Kept
  write_valid-Kept path_str content s (err e, t) valid =
      calm-Kept s t (subst (λ r. Calm s r.1) valid (validate_path-Calm json os debug path_str s))
  write_valid-Kept path_str content s (ok path, t) valid =
      let (same, inside) = validate_path-ok json os debug path_str path s t valid in
      subst (λ u. Kept s (write_below json os debug content path (parent path) u).1) (sym same)
        (write_below-Kept content path (parent path) s inside refl)

  write_file-Kept :
      (path_str content : String) (s : Session Value W)
      → Kept s (write_file json os debug path_str content s).1
  unfolding write_file
  write_file-Kept path_str content s =
      write_valid-Kept path_str content s (validate_path json os debug path_str s) refl

  chain-Kept :
      {A B : Type 0} (s : Session Value W) (r : SkillResult A × Session Value W)
      (k : A → Run json os debug B)
      → r.1 ≡ s
      → ((a : A) → Kept s (k a s).1)
      → Kept s (and_then json os debug r k).1
  unfolding Kept
  chain-Kept s (ok a, t) k same kept = subst (λ u. Kept s (k a u).1) (sym same) (kept a)
  chain-Kept s (err e, t) k same kept =
      calm-Kept s t (ap (λ u. u.world) same, ap (λ u. u.skill.allowed_roots) same)

  required-same :
      (params : ToolParams Value) (key : String) (s : Session Value W)
      → (required json os debug params key s).1 ≡ s
  required-same params key s = ground arith

  branch-Kept :
      {A : Type 0} (b : Bool) (m n : Run json os debug A) (s : Session Value W)
      → Kept s (m s).1
      → Kept s (n s).1
      → Kept s ((if b then m else n) s).1
  branch-Kept true m n s h k = h
  branch-Kept false m n s h k = k

  dispatch-Kept :
      (tool_name : String) (params : ToolParams Value) (s : Session Value W)
      → Kept s (dispatch json os debug tool_name params s).1
  unfolding dispatch
  dispatch-Kept tool_name params s =
      branch-Kept (tool_name == "read_file") _ _ s
        (chain-Kept s (required json os debug params "path" s) (read_file json os debug)
          (required-same params "path" s) (λ path. calm-Kept s _ (read_file-Calm path s)))
        (branch-Kept (tool_name == "write_file") _ _ s
          (chain-Kept s (required json os debug params "path" s) _ (required-same params "path" s)
            (λ path.
              chain-Kept s (required json os debug params "content" s)
                (write_file json os debug path) (required-same params "content" s)
                (λ content. write_file-Kept path content s)))
          (branch-Kept (tool_name == "list_directory") _ _ s
            (chain-Kept s (required json os debug params "path" s) (list_directory json os debug)
              (required-same params "path" s) (λ path. calm-Kept s _ (list_directory-Calm path s)))
            (branch-Kept (tool_name == "search_files") _ _ s
              (chain-Kept s (required json os debug params "pattern" s) _
                (required-same params "pattern" s)
                (λ pattern.
                  chain-Kept s (required json os debug params "root" s)
                    (search_files json os debug pattern) (required-same params "root" s)
                    (λ root. calm-Kept s _ (search_files-Calm pattern root s))))
              (calm-Kept s s (refl, refl)))))

  attach-Calm :
      (r : SkillResult (ToolOutput Value) × Session Value W)
      → Calm r.1 (attach_failure json os debug r).1
  attach-Calm (ok out, t) = (refl, refl)
  attach-Calm (err e, t) = ground arith

  attach-Kept :
      (s : Session Value W) (r : SkillResult (ToolOutput Value) × Session Value W)
      → Kept s r.1
      → Kept s (attach_failure json os debug r).1
  unfolding Kept
  attach-Kept s r (confined, roots) =
      let (same, kept) = attach-Calm r in
      (subst (Confined s.skill.allowed_roots s.world) (sym same) confined, kept ∙ roots)

  -- A call of any tool leaves the world as it was, or makes directories above a path inside an allowed
  -- root, or writes that path after that: the path has the components of the resolved root at its
  -- front. The allowed roots stay.
  pub execute_tool-Confined :
      (tool_name : String) (params : ToolParams Value) (s : Session Value W)
      → let after = (execute_tool json os debug tool_name params s).1 in
        Confined s.skill.allowed_roots s.world after.world
        × (after.skill.allowed_roots ≡ s.skill.allowed_roots)
  unfolding execute_tool Kept
  execute_tool-Confined tool_name params s =
      let cleared = with_failure json os debug none s in
      attach-Kept cleared (dispatch json os debug tool_name params cleared)
        (dispatch-Kept tool_name params cleared)
