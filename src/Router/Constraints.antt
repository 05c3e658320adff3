-- ===== src/Router/Constraints.antt =====
-- crates/orion-router/src/constraint_store.rs: the constraints that outlive an execution. A file
-- system is a map from paths to contents; `join_path`, the JSON functions and `debug` are parameters.
pub mod Store
use orion_dock.Prelude.{
  ◌+◌, String, Bool, not, Option, none, some, List, [], ◌++◌, map, if◌then◌else◌, any, keep, ◌==◌,
  Dict, lookup, insert,
}
use orion_dock.Skills.Failure.{Constraint, constraint_text}

pub record ConstraintStore : Type 0 where
  pub path : String
  pub constraints : List Constraint

-- The JSON library on a list of constraints, and the file operations that may fail.
pub record Disk : Type 0 where
  pub from_str : String → Option (List Constraint)
  pub to_string_pretty : List Constraint → Option String
  pub readable : String → Bool
  pub writable : String → Bool
  pub join_path : String → String → String

-- A parse or a read that fails leaves the store empty.
unfoldable pub load : Disk → Dict String → String → ConstraintStore
load disk files agent_data_dir =
    let path = disk.join_path agent_data_dir "governor_constraints.json" in
    record {
      path = path;
      constraints = elim (lookup path files) [
        | none ↦ []
        | some content ↦
            if disk.readable path
            then elim (disk.from_str content) [ none ↦ [] | some l ↦ l ]
            else []
      ];
    }

-- `none` is an error, and leaves the files as they were.
unfoldable pub save : Disk → ConstraintStore → Dict String → Option (Dict String)
save disk s files = elim (disk.to_string_pretty s.constraints) [
  | none ↦ none
  | some json ↦ if disk.writable s.path then some (insert s.path json files) else none
]

abbrev pub as_planner_constraints : (List String → String) → ConstraintStore → List String
as_planner_constraints debug s = map (constraint_text debug) s.constraints

-- The texts that are there before the first of the new constraints decide about all of them.
unfoldable pub add : (List String → String) → ConstraintStore → List Constraint → ConstraintStore
add debug s new_constraints =
    let existing = as_planner_constraints debug s in
    record s {
      constraints =
          s.constraints
          ++ keep (λ c. not (any (λ t. t == constraint_text debug c) existing)) new_constraints;
    }
