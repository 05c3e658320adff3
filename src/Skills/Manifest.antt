-- ===== src/Skills/Manifest.antt =====
-- crates/orion-skills/src/manifest.rs: what a skill declares. `Value` is serde_json's JSON value.
use orion_dock.Prelude.{String, Bool, Option, List}

pub data TrustTier : Type 0 where
  verified agent_built untrusted : TrustTier

-- `#[default]`
abbrev pub default_tier : TrustTier
default_tier = untrusted

-- The `Display` of a tier.
abbrev pub tier_name : TrustTier → String
tier_name verified = "Verified"
tier_name agent_built = "AgentBuilt"
tier_name untrusted = "Untrusted"

pub record SkillId : Type 0 where
  pub text : String

pub record CapabilityDescriptor : Type 0 where
  pub capability_type : String
  pub version : String
  pub category : String

pub data NetworkPermission : Type 0 where
  domains : List String → NetworkPermission
  full : NetworkPermission
  local_only : NetworkPermission

pub data FileSystemPermission : Type 0 where
  read : List String → FileSystemPermission
  write : List String → FileSystemPermission
  full : FileSystemPermission

pub data MemoryPermission : Type 0 where
  read_only : MemoryPermission
  read_write : MemoryPermission
  namespace : String → MemoryPermission

pub data Permission : Type 0 where
  network : NetworkPermission → Permission
  file_system : FileSystemPermission → Permission
  memory : MemoryPermission → Permission
  notifications clipboard microphone camera screen_capture shell_execute : Permission
  skill_interaction : String → Permission

pub record SecretDescriptor : Type 0 where
  pub name : String
  pub description : String
  pub required : Bool

pub record SkillManifest (Value : Type 0) : Type 0 where
  pub id : SkillId
  pub name : String
  pub version : String
  pub description : String
  pub license : Option String
  pub category : String
  pub keywords : List String
  pub runtime : String
  pub min_orion_version : String
  pub platforms : List String
  pub capabilities : List CapabilityDescriptor
  pub permissions : List Permission
  pub secrets : List SecretDescriptor
  pub config_defaults : String → Option Value
