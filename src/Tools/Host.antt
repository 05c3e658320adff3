-- ===== src/Tools/Host.antt =====
-- What the skills below skills/ use of the operating system and of serde_json. A path is the list of
-- its components (`/`, `.` and `..` among them), as `std::path` compares and splits it.
use Prim.Native.Char.{code}
use orion_dock.Prelude.{
  ℕ, String, Bool, true, false, ◌&&◌, ◌||◌, Option, none, some, List, [], ◌∷◌, ◌++◌, eqb,
  if◌then◌else◌, ◌⧺◌, ◌==◌, starts_with, join,
}

abbrev pub FilePath : Type 0
FilePath = List String

-- `s.split(c)`
unfoldable pub split_char : ℕ → String → List String
split_char b String.[] = "" ∷ []
split_char b (String.◌∷◌ c s) = elim (split_char b s) [
  | [] ↦ []
  | p ∷ ps ↦ if eqb (code c) b then "" ∷ p ∷ ps else String.◌∷◌ c p ∷ ps
]

-- Repeated separators and inner `.` are passed over.
unfoldable pub normal_parts : List String → FilePath
normal_parts [] = []
normal_parts (p ∷ ps) = let rest = normal_parts ps in if p == "" || p == "." then rest else p ∷ rest

unfoldable pub relative_parts : List String → FilePath
unfolding normal_parts
relative_parts [] = []
relative_parts (p ∷ ps) = if p == "." then "." ∷ normal_parts ps else normal_parts (p ∷ ps)

-- `PathBuf::from`
unfoldable pub path_from : String → FilePath
unfolding split_char relative_parts
path_from s =
    if starts_with s "/"
    then "/" ∷ normal_parts (split_char b'/' s)
    else relative_parts (split_char b'/' s)

-- `path.display().to_string()`
unfoldable pub display : FilePath → String
unfolding join
display [] = ""
display (p ∷ ps) = if p == "/" then "/" ⧺ join "/" ps else join "/" (p ∷ ps)

unfoldable pub without_last : FilePath → FilePath
without_last [] = []
without_last (p ∷ []) = []
without_last (p ∷ q ∷ ps) = p ∷ without_last (q ∷ ps)

unfoldable pub last_part : FilePath → String
last_part [] = ""
last_part (p ∷ []) = p
last_part (p ∷ q ∷ ps) = last_part (q ∷ ps)

-- `path.parent()`
unfoldable pub parent : FilePath → Option FilePath
unfolding without_last last_part
parent path =
    if last_part path == "" || last_part path == "/" then none else some (without_last path)

-- `path.join(other.file_name().unwrap_or_default())`
unfoldable pub join_file_name : FilePath → FilePath → FilePath
unfolding last_part
join_file_name path other =
    let name = last_part other in
    if name == "" || name == "/" || name == "." || name == ".." then path else path ++ (name ∷ [])

-- `path.starts_with(root)`
unfoldable pub begins_with : FilePath → FilePath → Bool
begins_with path [] = true
begins_with [] (r ∷ root) = false
begins_with (p ∷ path) (r ∷ root) = p == r && begins_with path root

-- A system call's answer, or the text of its error.
pub data Io (A : Type 0) : Type 0 where
  done : A → Io A
  failed : String → Io A

pub record DirEntry : Type 0 where
  pub file_name : String
  pub is_dir : Option Bool  -- `none` where the type cannot be read
  pub len : Option ℕ

-- The system calls over a world `W`.
pub record Os (W : Type 0) : Type 0 where
  pub exists : FilePath → W → Bool
  pub is_file : FilePath → W → Bool
  pub is_dir : FilePath → W → Bool
  pub canonicalize : FilePath → W → Io FilePath
  pub metadata_len : FilePath → W → Io ℕ
  pub read_to_string : FilePath → W → Io String
  pub create_dir_all : FilePath → W → Io Unit × W
  pub write : FilePath → String → W → Io Unit × W
  pub read_dir : FilePath → W → Io (List (Option DirEntry))
  pub glob : String → W → Io (List (Option FilePath))

-- What is used of serde_json's values.
pub record Json (Value : Type 0) : Type 0 where
  pub object : List (String × Value) → Value
  pub array : List Value → Value
  pub text : String → Value
  pub number : ℕ → Value
  pub boolean : Bool → Value
  pub to_string : Value → Option String  -- `from_value::<String>`
  pub to_number : Value → Option ℕ  -- `from_value::<u64>`
  pub no_metadata : Value  -- `ToolMetadata::default()`
