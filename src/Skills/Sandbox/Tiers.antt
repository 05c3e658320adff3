-- ===== src/Skills/Sandbox/Tiers.antt =====
-- What a trust tier leaves of a skill's permissions, and of the actions that the sandbox allows.
use orion_dock.Prelude.{
  String, ◌≡◌, refl, sym, ap, ◌∙◌, subst, ◌≢◌, ◌↔◌, ◌⊎◌, inl, inr, true, false, Option, none, some,
  List, [], ◌∷◌, ◌++◌, map, append-nil, append_assoc, arith, keep, Elem, any-Elem, keep-Elem,
  Elem-keep, any-keep, any-keep-false,
}
use orion_dock.Skills.Sandbox.Grants.{check_permission_inner_mono}
use orion_dock.Skills.Manifest.{
  SkillId, TrustTier, verified, agent_built, untrusted, NetworkPermission, MemoryPermission,
  Permission, network, memory, shell_execute,
}
use orion_dock.Skills.Sandbox.{
  other, memory_access, check_permission, AuditEntry, file_write, permits, file_read, new,
  check_permission_inner, SkillSandbox, ResourceLimits, AuditActionKind, not_shell,
  is_network_or_read_only, filter_permissions,
}

-- What each tier lets a skill hold.
abbrev pub Admits : TrustTier → Permission → Type 0
Admits verified p = Unit
Admits agent_built p = p ≢ shell_execute
Admits untrusted p =
    ((np : NetworkPermission) × (p ≡ network np)) ⊎ (p ≡ memory MemoryPermission.read_only)

not_shell_iff : (p : Permission) → (not_shell p ≡ true) ↔ (p ≢ shell_execute)
not_shell_iff shell_execute = (λ e. cc, λ h. absurd (h refl))
not_shell_iff p = (λ e q. cc, λ h. refl)

network_or_read_only_iff :
    (p : Permission) → (is_network_or_read_only p ≡ true) ↔ Admits untrusted p
network_or_read_only_iff (network np) = (λ e. inl (np, refl), λ h. refl)
network_or_read_only_iff (memory MemoryPermission.read_only) = (λ e. inr refl, λ h. refl)
network_or_read_only_iff p = ground arith

pub filter_permissions_iff :
    (perms : List Permission) (t : TrustTier) (p : Permission)
    → Elem p (filter_permissions perms t) ↔ (Elem p perms × Admits t p)
unfolding filter_permissions
filter_permissions_iff perms verified p = (λ e. (e, tt), λ h. h.0)
filter_permissions_iff perms agent_built p = (
  λ e. let (m, q) = keep-Elem not_shell perms e in (m, (not_shell_iff p).0 q),
  λ (m, h). Elem-keep not_shell m ((not_shell_iff p).1 h),
)
filter_permissions_iff perms untrusted p = (
  λ e.
      let (m, q) = keep-Elem is_network_or_read_only perms e in
      (m, (network_or_read_only_iff p).0 q),
  λ (m, h). Elem-keep is_network_or_read_only m ((network_or_read_only_iff p).1 h),
)

-- The sandbox that the executor makes for a skill of a tier.
abbrev pub tier_sandbox : SkillId → List Permission → TrustTier → ResourceLimits → SkillSandbox
tier_sandbox id perms t limits = new id (filter_permissions perms t) limits

module _ (id : SkillId) (perms : List Permission) (limits : ResourceLimits)
    (k : AuditActionKind) where
  by-Admits :
      (t u : TrustTier)
      → ((p : Permission) → Admits t p → Admits u p)
      → check_permission_inner (tier_sandbox id perms t limits) k ≡ true
      → check_permission_inner (tier_sandbox id perms u limits) k ≡ true
  unfolding new
  by-Admits t u up =
      check_permission_inner_mono (tier_sandbox id perms t limits) (tier_sandbox id perms u limits)
        k
        λ p m.
          let (asked, ok) = (filter_permissions_iff perms t p).0 m in
          (filter_permissions_iff perms u p).1 (asked, up p ok)

  -- With the same permissions asked for, whatever an untrusted skill may do an agent-built one may
  -- do, and whatever that may do a verified one may do.
  pub check_permission_inner-tier_order :
      (check_permission_inner (tier_sandbox id perms untrusted limits) k ≡ true
        → check_permission_inner (tier_sandbox id perms agent_built limits) k ≡ true)
      × (check_permission_inner (tier_sandbox id perms agent_built limits) k ≡ true
          → check_permission_inner (tier_sandbox id perms verified limits) k ≡ true)
  check_permission_inner-tier_order = (
    by-Admits untrusted agent_built (λ p h. ground arith),
    by-Admits agent_built verified (λ p h. tt),
  )

permits-shell : (k : AuditActionKind) (p : Permission) → not_shell p ≡ false → permits k p ≡ false
unfolding permits
permits-shell (memory_access none) shell_execute h = refl
permits-shell (memory_access (some n)) shell_execute h = refl
permits-shell (other t) shell_execute h = refl
permits-shell k shell_execute h = refl
permits-shell k p h = cc

-- No action of the sandbox is granted by `ShellExecute`: an agent-built skill passes exactly the
-- checks that a verified one passes.
pub agent_built-eq-verified :
    (id : SkillId) (perms : List Permission) (limits : ResourceLimits) (k : AuditActionKind)
    → check_permission_inner (tier_sandbox id perms agent_built limits) k
      ≡ check_permission_inner (tier_sandbox id perms verified limits) k
unfolding check_permission_inner new filter_permissions
agent_built-eq-verified id perms limits (other t) = refl
agent_built-eq-verified id perms limits k = any-keep not_shell (permits k) perms (permits-shell k)

permits-file_read :
    (path : String) (p : Permission)
    → is_network_or_read_only p ≡ true
    → permits (file_read path) p ≡ false
unfolding permits
permits-file_read path (network np) h = refl
permits-file_read path p h = ground arith

permits-file_write :
    (path : String) (p : Permission)
    → is_network_or_read_only p ≡ true
    → permits (file_write path) p ≡ false
unfolding permits
permits-file_write path (network np) h = refl
permits-file_write path p h = ground arith

permits-namespace :
    (ns : Option String) (p : Permission)
    → is_network_or_read_only p ≡ true
    → permits (memory_access ns) p ≡ true
    → p ≡ memory MemoryPermission.read_only
unfolding permits
permits-namespace none (network np) h e = cc
permits-namespace none p h e = ground arith
permits-namespace (some n) (network np) h e = cc
permits-namespace (some n) p h e = ground arith

-- The sandbox of an untrusted skill judges every reading and writing of a file as not allowed, and one of
-- memory as allowed only if the skill asked for the read-only permission.
pub untrusted_confined :
    (id : SkillId) (perms : List Permission) (limits : ResourceLimits)
    → ((path : String)
        → check_permission_inner (tier_sandbox id perms untrusted limits) (file_read path) ≡ false)
      × ((path : String)
          → check_permission_inner (tier_sandbox id perms untrusted limits) (file_write path)
            ≡ false)
      × ((ns : Option String)
          → check_permission_inner (tier_sandbox id perms untrusted limits) (memory_access ns)
            ≡ true
          → Elem (memory MemoryPermission.read_only) perms)
unfolding check_permission_inner new filter_permissions
untrusted_confined id perms limits = (
  λ path.
      any-keep-false is_network_or_read_only (permits (file_read path)) perms
        (permits-file_read path),
  λ path.
      any-keep-false is_network_or_read_only (permits (file_write path)) perms
        (permits-file_write path),
  λ ns h.
      let (p, m, e) =
        any-Elem (permits (memory_access ns)) (keep is_network_or_read_only perms) h in
      let (asked, kept) = keep-Elem is_network_or_read_only perms m in
      subst (λ q. Elem q perms) (permits-namespace ns p kept e) asked,
)

-- The checks of a run, in order.
abbrev pub checks : SkillSandbox → List AuditActionKind → SkillSandbox
checks s [] = s
checks s (k ∷ ks) = checks (check_permission s k).0 ks

abbrev pub judged : SkillSandbox → AuditActionKind → AuditEntry
judged s k = record { action = k; allowed = check_permission_inner s k }

judged-check_permission :
    (s : SkillSandbox) (k j : AuditActionKind) → judged (check_permission s k).0 j ≡ judged s j
unfolding check_permission check_permission_inner
judged-check_permission s k (other t) = refl
judged-check_permission s k j = refl

map-judged :
    (s : SkillSandbox) (k : AuditActionKind) (ks : List AuditActionKind)
    → map (judged (check_permission s k).0) ks ≡ map (judged s) ks
map-judged s k [] = refl
map-judged s k (j ∷ js) = cc (judged-check_permission s k j, map-judged s k js)

log-check_permission :
    (s : SkillSandbox) (k : AuditActionKind) (rest : List AuditEntry)
    → (check_permission s k).0.audit_log ++ rest ≡ s.audit_log ++ (judged s k ∷ rest)
unfolding check_permission
log-check_permission s k rest = append_assoc s.audit_log (judged s k ∷ []) rest

-- However many checks run, the audit log gains exactly one entry for each, in order, with the
-- verdict of the sandbox before the run; a check never changes what later checks allow.
pub audit_log-checks :
    (s : SkillSandbox) (ks : List AuditActionKind)
    → (checks s ks).audit_log ≡ s.audit_log ++ map (judged s) ks
audit_log-checks s [] = sym (append-nil _)
audit_log-checks s (k ∷ ks) =
    audit_log-checks (check_permission s k).0 ks
    ∙ (ap (λ l. (check_permission s k).0.audit_log ++ l) (map-judged s k ks)
        ∙ log-check_permission s k (map (judged s) ks))
