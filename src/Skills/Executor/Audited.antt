-- ===== src/Skills/Executor/Audited.antt =====
-- The network request that crates/orion-skills/src/executor.rs audits for a tool.
use orion_dock.Prelude.{ap, String, ◌≡◌, refl, ◌∙◌, some, List, [], ◌∷◌, Elem}
use orion_dock.Skills.Manifest.{TrustTier, Permission, network}
use orion_dock.Skills.Sandbox.{AuditActionKind, network_request}
use orion_dock.Skills.Sandbox.Grants.{Grants}
use orion_dock.Skills.Sandbox.Tiers.{Admits}
use orion_dock.Skills.Executor.{NetworkPermission, audited_domain, audit_action_for_tool}

pub audit_action-network :
    (ps : List Permission) (a : AuditActionKind)
    → audit_action_for_tool ps ≡ some a
    → (d : String) × (a ≡ network_request d)
unfolding audit_action_for_tool
audit_action-network (network np ∷ ps) a h = (audited_domain np, cc)
audit_action-network [] a h = cc
audit_action-network (p ∷ ps) a h = audit_action-network ps a h

-- The domain that a network permission asks for.
pub data Asks : NetworkPermission → String → Type 0 where
  any_domain : Asks NetworkPermission.full "any"
  local_host : Asks NetworkPermission.local_only "localhost"
  unknown_domain : Asks (NetworkPermission.domains []) "unknown"
  first_domain : (d : String) (ds : List String) → Asks (NetworkPermission.domains (d ∷ ds)) d

-- The first network permission of a list asks for a domain.
pub data AsksFirst (d : String) : List Permission → Type 0 where
  at_head :
      (np : NetworkPermission) (ps : List Permission) → Asks np d → AsksFirst d (network np ∷ ps)
  later :
      (p : Permission) (ps : List Permission)
      → ((np : NetworkPermission) → ¬ (p ≡ network np))
      → AsksFirst d ps
      → AsksFirst d (p ∷ ps)

audited-Asks : (np : NetworkPermission) (d : String) → Asks np d → audited_domain np ≡ d
unfolding audited_domain
audited-Asks np d Asks.any_domain = refl
audited-Asks np d Asks.local_host = refl
audited-Asks np d Asks.unknown_domain = refl
audited-Asks np d (Asks.first_domain _ ds) = refl

skips :
    (p : Permission) (ps : List Permission)
    → ((np : NetworkPermission) → ¬ (p ≡ network np))
    → audit_action_for_tool (p ∷ ps) ≡ audit_action_for_tool ps
unfolding audit_action_for_tool
skips (network np) ps other = absurd (other np refl)
skips p ps other = refl

pub audit-AsksFirst :
    (d : String) (ps : List Permission)
    → AsksFirst d ps
    → audit_action_for_tool ps ≡ some (network_request d)
unfolding audit_action_for_tool
audit-AsksFirst d ps (AsksFirst.at_head np rest asks) =
    ap (λ d. some (network_request d)) (audited-Asks np d asks)
audit-AsksFirst d ps (AsksFirst.later p rest other first) =
    skips p rest other ∙ audit-AsksFirst d rest first

-- A permission that the manifest asks for and the tier admits grants the request for a domain.
abbrev pub Granted : List Permission → TrustTier → String → Type 0
Granted perms tier d =
    (p : Permission) × Elem p perms × Admits tier p × Grants (network_request d) p
