-- ===== src/Skills/Sandbox.antt =====
-- crates/orion-skills/src/sandbox.rs: resource limits by trust tier, the permission filter and the
-- audited permission check. The set of granted permissions is a list: only membership is read.
pub mod Grants
pub mod Tiers
use orion_dock.Prelude.{
  ℕ, ◌*◌, String, Bool, true, false, ◌||◌, Option, none, some, List, [], ◌∷◌, ◌++◌, ◌⧺◌, ◌==◌, any,
  keep, starts_with, ends_with,
}
use orion_dock.Skills.Manifest.{
  TrustTier, verified, agent_built, untrusted, SkillId, NetworkPermission, FileSystemPermission,
  MemoryPermission, Permission, network, file_system, memory, shell_execute,
}

-- `u64` and `u32` fields, which no operation computes with.
pub record ResourceLimits : Type 0 where
  pub max_memory_bytes : ℕ
  pub max_cpu_ms : ℕ
  pub max_concurrency : ℕ
  pub network_bandwidth : Option ℕ
  pub storage_quota : ℕ

abbrev pub default_limits : ResourceLimits
default_limits = record {
  max_memory_bytes = 256 * 1024 * 1024;
  max_cpu_ms = 30000;
  max_concurrency = 10;
  network_bandwidth = none;
  storage_quota = 100 * 1024 * 1024;
}

unfoldable pub for_tier : TrustTier → ResourceLimits
for_tier verified = default_limits
for_tier agent_built = record {
  max_memory_bytes = 128 * 1024 * 1024;
  max_cpu_ms = 15000;
  max_concurrency = 5;
  network_bandwidth = none;
  storage_quota = 50 * 1024 * 1024;
}
for_tier untrusted = record {
  max_memory_bytes = 64 * 1024 * 1024;
  max_cpu_ms = 10000;
  max_concurrency = 2;
  network_bandwidth = none;
  storage_quota = 10 * 1024 * 1024;
}

pub data AuditActionKind : Type 0 where
  network_request : (domain : String) → AuditActionKind
  file_read file_write : (path : String) → AuditActionKind
  memory_access : (namespace : Option String) → AuditActionKind
  other : String → AuditActionKind

-- The `timestamp` of the source is left out: nothing reads it.
pub record AuditEntry : Type 0 where
  pub action : AuditActionKind
  pub allowed : Bool

pub record SkillSandbox : Type 0 where
  pub skill_id : SkillId
  pub granted_permissions : List Permission
  pub resource_limits : ResourceLimits
  pub audit_log : List AuditEntry

abbrev is_network_or_read_only : Permission → Bool
is_network_or_read_only (network _) = true
is_network_or_read_only (memory MemoryPermission.read_only) = true
is_network_or_read_only _ = false

abbrev not_shell : Permission → Bool
not_shell shell_execute = false
not_shell _ = true

unfoldable pub filter_permissions : List Permission → TrustTier → List Permission
filter_permissions perms verified = perms
filter_permissions perms agent_built = keep not_shell perms
filter_permissions perms untrusted = keep is_network_or_read_only perms

unfoldable pub new : SkillId → List Permission → ResourceLimits → SkillSandbox
new skill_id granted_permissions resource_limits = record {
  skill_id = skill_id;
  granted_permissions = granted_permissions;
  resource_limits = resource_limits;
  audit_log = [];
}

-- `path == a || path.starts_with(&format!("{}/", a))`
unfoldable pub is_under : String → String → Bool
is_under path a = path == a || starts_with path (a ⧺ "/")

-- The body of the loop over the granted permissions: whether this one returns `true`.
unfoldable pub permits : AuditActionKind → Permission → Bool
unfolding is_under ends_with
permits (AuditActionKind.network_request domain) (network NetworkPermission.full) = true
permits (AuditActionKind.network_request domain) (network NetworkPermission.local_only) =
    domain == "localhost" || starts_with domain "127."
permits (AuditActionKind.network_request domain) (network (NetworkPermission.domains domains)) =
    any (λ d. domain == d || ends_with domain d) domains
permits (AuditActionKind.file_read path) (file_system FileSystemPermission.full) = true
permits (AuditActionKind.file_read path) (file_system (FileSystemPermission.read allowed)) =
    any (is_under path) allowed
permits (AuditActionKind.file_write path) (file_system FileSystemPermission.full) = true
permits (AuditActionKind.file_write path) (file_system (FileSystemPermission.write allowed)) =
    any (is_under path) allowed
permits (AuditActionKind.memory_access ns) (memory MemoryPermission.read_only) = true
permits (AuditActionKind.memory_access ns) (memory MemoryPermission.read_write) = true
permits (AuditActionKind.memory_access (some n)) (memory (MemoryPermission.namespace ns)) = n == ns
permits _ _ = false

unfoldable pub check_permission_inner : SkillSandbox → AuditActionKind → Bool
unfolding permits
check_permission_inner s (AuditActionKind.other _) = true
check_permission_inner s kind = any (permits kind) s.granted_permissions

unfoldable pub check_permission : SkillSandbox → AuditActionKind → SkillSandbox × Bool
unfolding check_permission_inner
check_permission s action =
    let allowed = check_permission_inner s action in
    (
      record s { audit_log = s.audit_log ++ record { action = action; allowed = allowed } ∷ [] },
      allowed,
    )
