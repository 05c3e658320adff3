-- ===== src/Tools/Filesystem.antt =====
-- skills/skill-filesystem/src/lib.rs: reading, writing, listing and searching below allowed roots.
-- The mutex around the last failure is never poisoned, since nothing panics while it is held.
pub mod Paths
pub mod Confined
pub mod Reads
use Prim.Native.Nat.{Ordering}
use Prim.Native.String.{len, compare}
use mathlib.Core.Option
use orion_dock.Prelude.{
  skip_chars, ℕ, String, Bool, true, false, not, ◌&&◌, ◌||◌, Option, none, some, List, [], ◌∷◌, map,
  ltb, if◌then◌else◌, is_empty, length, take, any, keep, filter_map, ◌⧺◌, ◌==◌, contains_text,
  replace_char, starts_with, join, decimal, concat, lookup,
}
use orion_dock.Skills.Failure.{StructuredFailure}
use orion_dock.Skills.Manifest.{SkillManifest}
use orion_dock.Skills.Registry.{SkillError, SkillResult, ok, err, tool_failed}
use orion_dock.Skills.Executor.{ToolOutput, ToolParams}
use orion_dock.Tools.Host.{
  FilePath, path_from, display, parent, join_file_name, begins_with, Io, DirEntry, Os, Json,
}

pub record FilesystemSkill (Value : Type 0) : Type 0 where
  pub manifest : SkillManifest Value
  pub allowed_roots : List FilePath
  pub last_structured_failure : Option StructuredFailure

-- The skill beside the world that its calls read and change.
pub record Session (Value W : Type 0) : Type 0 where
  pub skill : FilesystemSkill Value
  pub world : W

abbrev pub new : {Value : Type 0} → SkillManifest Value → List FilePath → FilesystemSkill Value
new manifest allowed_roots = record {
  manifest = manifest;
  allowed_roots = allowed_roots;
  last_structured_failure = none;
}

-- The first test of `validate_path`
unfoldable pub is_traversal : String → Bool
unfolding contains_text
is_traversal path_str =
    let normalized = replace_char b'\\' "/" path_str in
    contains_text normalized "../" || contains_text normalized "/.."

-- An entry of a listing.
pub record Item : Type 0 where
  pub name : String
  pub is_directory : Bool
  pub size_bytes : ℕ

abbrev pub or_false : Option Bool → Bool
or_false none = false
or_false (some b) = b

abbrev pub or_zero : Option ℕ → ℕ
or_zero none = 0
or_zero (some n) = n

unfoldable pub item_of : DirEntry → Item
item_of entry =
    let is_directory = or_false entry.is_dir in
    record {
      name = entry.file_name;
      is_directory = is_directory;
      size_bytes = if is_directory then 0 else or_zero entry.len;
    }

abbrev pub not_after : String → String → Bool
not_after s t = elim (compare s t) [ Ordering.gt ↦ false | _ ↦ true ]

-- The order of the listing: directories first, then by name; whether `a` may stand before `b`.
unfoldable pub precedes : Item → Item → Bool
precedes a b = elim (a.is_directory) [
  | true ↦ elim (b.is_directory) [ true ↦ not_after a.name b.name | false ↦ true ]
  | false ↦ elim (b.is_directory) [ true ↦ false | false ↦ not_after a.name b.name ]
]

-- `sort_by` is stable: an item goes behind those it ties with.
unfoldable pub insert_item : Item → List Item → List Item
insert_item x [] = x ∷ []
insert_item x (y ∷ ys) =
    let rest = insert_item x ys in if precedes x y then x ∷ y ∷ ys else y ∷ rest

unfoldable pub sort_items : List Item → List Item
unfolding insert_item
sort_items [] = []
sort_items (x ∷ xs) = insert_item x (sort_items xs)

module _ {Value W : Type 0} (json : Json Value) (os : Os W) (debug : List String → String) where
  abbrev pub Run : Type 0 → Type 0
  Run A = Session Value W → SkillResult A × Session Value W

  abbrev pub and_then :
      {A B : Type 0}
      → SkillResult A × Session Value W
      → (A → Run B)
      → SkillResult B × Session Value W
  and_then (ok a, s) k = k a s
  and_then (err e, s) k = (err e, s)

  infixl 5 ◌>>=◌
  abbrev pub ◌>>=◌ : {A B : Type 0} → Run A → (A → Run B) → Run B
  (m >>= k) s = and_then (m s) k

  abbrev pub pure : {A : Type 0} → A → Run A
  pure a s = (ok a, s)

  abbrev pub fail : {A : Type 0} → String → Run A
  fail message s = (err (tool_failed message), s)

  -- `?` on a system call, whose error text follows `message`
  abbrev pub io : {A : Type 0} → String → Io A → Run A
  io message (Io.done a) = pure a
  io message (Io.failed e) = fail (message ⧺ e)

  abbrev pub ask : {A : Type 0} → (Session Value W → A) → Run A
  ask f s = (ok (f s), s)

  -- A system call that changes the world.
  abbrev pub act : {A : Type 0} → (W → Io A × W) → Run (Io A)
  act f s = let (r, w) = f s.world in (ok r, record s { world = w })

  abbrev pub allowed_paths_display : FilesystemSkill Value → List String
  allowed_paths_display skill = map display skill.allowed_roots

  -- `Err(self.permission_denied(path_str, reason))`
  unfoldable pub permission_denied : {A : Type 0} → String → String → Run A
  permission_denied path_str reason s = (
    err (
        SkillError.permission_denied (
          concat
            (reason ∷ ". Allowed directories: " ∷ debug (allowed_paths_display s.skill) ∷ []))),
    record s {
      skill = record s.skill {
        last_structured_failure =
            some (StructuredFailure.permission_denied path_str (allowed_paths_display s.skill));
      };
    },
  )

  abbrev pub outside : {A : Type 0} → String → Run A
  outside path_str =
      permission_denied path_str
        (concat ("Path '" ∷ path_str ∷ "' is outside allowed directories" ∷ []))

  abbrev pub canonical_root : W → FilePath → FilePath
  canonical_root w root = elim (os.canonicalize root w) [ Io.done r ↦ r | Io.failed e ↦ root ]

  unfoldable pub is_within_allowed_roots : FilePath → Session Value W → Bool
  is_within_allowed_roots path s =
      any (λ root. begins_with path (canonical_root s.world root)) s.skill.allowed_roots

  abbrev pub validate_existing : String → Run FilePath
  validate_existing path_str = do
    found ← ask (λ s. os.canonicalize (path_from path_str) s.world)
    canonical ← io "Cannot resolve path: " found
    inside ← ask (is_within_allowed_roots canonical)
    (if inside then pure canonical else outside path_str)

  -- A path that is not there: its parent counts.
  abbrev pub validate_parent : String → Option FilePath → Run FilePath
  validate_parent path_str none = outside path_str
  validate_parent path_str (some above) = do
    there ← ask (λ s. os.exists above s.world)
    (if there
        then (do
          found ← ask (λ s. os.canonicalize above s.world)
          canonical_parent ← io "Cannot resolve parent path: " found
          inside ← ask (is_within_allowed_roots canonical_parent)
          (if inside
              then pure (join_file_name canonical_parent (path_from path_str))
              else outside path_str))
        else outside path_str)

  unfoldable pub validate_path : String → Run FilePath
  unfolding is_traversal is_within_allowed_roots permission_denied
  validate_path path_str =
      if is_traversal path_str
      then permission_denied path_str "Path traversal (../) is not allowed"
      else (do
        there ← ask (λ s. os.exists (path_from path_str) s.world)
        (if there
            then validate_existing path_str
            else validate_parent path_str (parent (path_from path_str))))

  abbrev pub output : Bool → Option Value → Option String → ToolOutput Value
  output success payload error = record {
    success = success;
    payload = payload;
    error = error;
    structured_failure = none;
    metadata = json.no_metadata;
  }

  -- `ToolOutput::success(json!({…}))`, `ToolOutput::error` and `ToolOutput::structured_error`
  abbrev pub succeeds : List (String × Value) → Run (ToolOutput Value)
  succeeds fields = pure (output true (some (json.object fields)) none)

  abbrev pub error_output : List String → Run (ToolOutput Value)
  error_output parts = pure (output false none (some (concat parts)))

  -- The fields of a file's output.
  abbrev pub file_fields : FilePath → String → ℕ → List (String × Value)
  file_fields path content size =
      ("formatted", json.text content)
      ∷ ("path", json.text (display path))
      ∷ ("size_bytes", json.number size)
      ∷ []

  -- The rest of `read_file`, for the validated path.
  abbrev pub read_valid : String → FilePath → Run (ToolOutput Value)
  read_valid path_str path = do
    is_file ← ask (λ s. os.is_file path s.world)
    (if not is_file then error_output ("'" ∷ path_str ∷ "' is not a file" ∷ []) else (do
      measured ← ask (λ s. os.metadata_len path s.world)
      size ← io "Cannot read metadata: " measured
      (if ltb 1048576 size
          then error_output ("File too large (" ∷ decimal size ∷ " bytes). Maximum is 1MB." ∷ [])
          else (do
            found ← ask (λ s. os.read_to_string path s.world)
            content ← io "Cannot read file: " found
            succeeds (file_fields path content size)))))

  unfoldable pub read_file : String → Run (ToolOutput Value)
  unfolding validate_path
  read_file path_str = do path ← validate_path path_str; read_valid path_str path

  -- `if let Some(parent) = path.parent() { create_dir_all(parent)?; }`
  abbrev pub create_parent : Option FilePath → Run Unit
  create_parent none = pure tt
  create_parent (some above) = act (os.create_dir_all above) >>= io "Cannot create directories: "

  -- The rest of `write_file`, for the validated path and its parent.
  abbrev pub write_below : String → FilePath → Option FilePath → Run (ToolOutput Value)
  write_below content path above = do
    made ← create_parent above
    answer ← act (os.write path content)
    written ← io "Cannot write file: " answer
    succeeds (
        (
          "formatted",
          json.text
              (concat ("Written " ∷ decimal (len content) ∷ " bytes to " ∷ display path ∷ [])),
        )
        ∷ ("path", json.text (display path))
        ∷ ("size_bytes", json.number (len content))
        ∷ [])

  unfoldable pub write_file : String → String → Run (ToolOutput Value)
  unfolding validate_path
  write_file path_str content = do
    path ← validate_path path_str
    write_below content path (parent path)

  abbrev pub item_line : Item → String
  item_line item = concat ((if item.is_directory then "📁" else "📄") ∷ " " ∷ item.name ∷ [])

  abbrev pub item_value : Item → Value
  item_value item = json.object (
      ("name", json.text item.name)
      ∷ ("is_directory", json.boolean item.is_directory)
      ∷ ("size_bytes", json.number item.size_bytes)
      ∷ [])

  unfoldable pub list_directory : String → Run (ToolOutput Value)
  unfolding validate_path sort_items item_of
  list_directory path_str = do
    path ← validate_path path_str
    is_dir ← ask (λ s. os.is_dir path s.world)
    (if not is_dir then error_output ("'" ∷ path_str ∷ "' is not a directory" ∷ []) else (do
      found ← ask (λ s. os.read_dir path s.world)
      entries ← io "Cannot read directory: " found
      let items = sort_items (filter_map (Option.map item_of) entries)
      succeeds (
          ("formatted", json.text (join "\n" (map item_line items)))
          ∷ ("path", json.text (display path))
          ∷ ("count", json.number (length items))
          ∷ ("entries", json.array (map item_value items))
          ∷ [])))

  -- `root.display()` without the prefix of an extended-length path, with forward slashes
  unfoldable pub normalized_root : FilePath → String
  unfolding replace_char
  normalized_root root =
      let shown = display root in
      replace_char b'\\' "/" (if starts_with shown "\\\\?\\" then skip_chars 4 shown else shown)

  unfoldable pub search_files : String → String → Run (ToolOutput Value)
  unfolding validate_path is_within_allowed_roots normalized_root
  search_files pattern_str root_str = do
    root ← validate_path root_str
    is_dir ← ask (λ s. os.is_dir root s.world)
    (if not is_dir then error_output ("'" ∷ root_str ∷ "' is not a directory" ∷ []) else (do
      globbed ← ask (λ s. os.glob (concat (normalized_root root ∷ "/" ∷ pattern_str ∷ [])) s.world)
      entries ← io "Invalid glob pattern: " globbed
      files ← ask (λ s.
          map display
            (take 100 (keep (λ p. is_within_allowed_roots p s) (filter_map (λ p. p) entries))))
      succeeds (
          (
            "formatted",
            json.text (
                if is_empty files then "No files found matching the pattern." else join "\n" files),
          )
          ∷ ("pattern", json.text pattern_str)
          ∷ ("root", json.text (display root))
          ∷ ("count", json.number (length files))
          ∷ ("files", json.array (map json.text files))
          ∷ [])))

  -- `params.get::<String>(key).ok_or_else(…)?`
  abbrev pub required : ToolParams Value → String → Run String
  required params key =
      let missing = fail ("Missing required parameter: " ⧺ key) in
      elim (lookup key params.values) [
        | none ↦ missing
        | some v ↦ elim (json.to_string v) [ none ↦ missing | some t ↦ pure t ]
      ]

  unfoldable pub dispatch : String → ToolParams Value → Run (ToolOutput Value)
  unfolding read_file write_file list_directory search_files lookup
  dispatch tool_name params =
      if tool_name == "read_file"
      then (required params "path" >>= read_file)
      else if tool_name == "write_file"
      then (do
        path ← required params "path"
        content ← required params "content"
        write_file path content)
      else if tool_name == "list_directory"
      then (required params "path" >>= list_directory)
      else if tool_name == "search_files"
      then (do
        pattern ← required params "pattern"
        root ← required params "root"
        search_files pattern root)
      else fail ("Unknown tool: " ⧺ tool_name)

  abbrev pub with_failure : Option StructuredFailure → Session Value W → Session Value W
  with_failure f s = record s { skill = record s.skill { last_structured_failure = f } }

  -- A denial takes the failure that was stored for it into the output.
  abbrev pub explained :
      String
      → Option StructuredFailure
      → Session Value W
      → SkillResult (ToolOutput Value) × Session Value W
  explained message none s = (err (SkillError.permission_denied message), s)
  explained message (some structured) s = (
    ok (record (output false none (some message)) { structured_failure = some structured }),
    with_failure none s,
  )

  abbrev pub attach_failure :
      SkillResult (ToolOutput Value) × Session Value W
      → SkillResult (ToolOutput Value) × Session Value W
  attach_failure (err (SkillError.permission_denied message), s) =
      explained message s.skill.last_structured_failure s
  attach_failure (r, s) = (r, s)

  unfoldable pub execute_tool : String → ToolParams Value → Run (ToolOutput Value)
  unfolding dispatch
  execute_tool tool_name params s = attach_failure (dispatch tool_name params (with_failure none s))
