-- ===== src/Skills/Executor/Guards.antt =====
-- What stands between a tool call and the skill's code.
use orion_dock.Affixes.{contains_text_iff}
use orion_dock.Skills.Executor.Filtered.{Filtered, replace_text-Filtered}
use orion_dock.Prelude.{
  if◌then◌else◌, false_of_not, ap, subst, eq_iff, find_first, find_first-Elem, ◌⧺◌, ◌==◌,
  contains_text, replace_text, Bool-cases, inl, inr, ap, ℕ, String, ◌≡◌, refl, ◌∙◌, true, false,
  Option, none, some, List, arith, Elem,
}
use orion_dock.Skills.Manifest.{TrustTier, SkillId, Permission, SkillManifest}
use orion_dock.Skills.Sandbox.{
  ResourceLimits, for_tier, AuditActionKind, network_request, SkillSandbox, filter_permissions,
  check_permission, check_permission_inner,
}
use orion_dock.Skills.Sandbox as Sandbox
use orion_dock.Skills.Sandbox.Grants.{Grants, is_other, check_permission_inner_iff}
use orion_dock.Skills.Sandbox.Tiers.{Admits, filter_permissions_iff}
use orion_dock.Skills.Registry.{ok, err, ToolDescriptor, Skill, get_skill, ◌>>=◌, ◌>>◌, >>=-eq-ok}
use orion_dock.Skills.Executor.{
  untrusted, ExecutionContext, ToolOutput, ToolParams, Run, SkillExecutor, audit_action_for_tool,
  find_tool, effective_limits, denial, gate, within_timeout, sanitize, execute, acquire,
}
use orion_dock.Skills.Executor.Audited.{audit_action-network, AsksFirst, audit-AsksFirst, Granted}

-- What the gate lets through: no audited action, or one that a permission which the manifest
-- asks for and the tier admits grants.
abbrev pub Passes : List Permission → TrustTier → Option AuditActionKind → Type 0
Passes perms tier none = Unit
Passes perms tier (some a) = (p : Permission) × Elem p perms × Admits tier p × Grants a p

module _ (tool_name : String) (tier : TrustTier) (id : SkillId) (perms : List Permission)
    (limits : ResourceLimits) where
  abbrev fresh : SkillSandbox
  fresh = Sandbox.new id (filter_permissions perms tier) limits

  verdict :
      (a : AuditActionKind)
      → is_other a ≡ false
      → (check_permission fresh a).1 ≡ true
      → (p : Permission) × Elem p perms × Admits tier p × Grants a p
  unfolding check_permission Sandbox.new
  verdict a judged h =
      let (p, m, g) = (check_permission_inner_iff fresh a judged).0 h in
      let (asked, admitted) = (filter_permissions_iff perms tier p).0 m in (p, asked, admitted, g)

  gate-Passes :
      (a : Option AuditActionKind)
      → ((k : AuditActionKind) → a ≡ some k → is_other k ≡ false)
      → gate tool_name tier fresh a ≡ ok tt
      → Passes perms tier a
  unfolding gate
  gate-Passes none judged h = tt
  gate-Passes (some k) judged h = verdict k (judged k refl) (ground arith)

audited_judged :
    (ps : List Permission) (k : AuditActionKind)
    → audit_action_for_tool ps ≡ some k
    → is_other k ≡ false
audited_judged ps k h = let (d, e) = audit_action-network ps k h in rw e

abbrev pub Mentions : String → Type 0
Mentions text = (p : String) × (r : String) × (text ≡ p ⧺ ("tool_request" ⧺ r))

-- What an output became: the same, but where an untrusted skill's text mentions `tool_request` the data
-- are an object of the text with every mention filtered out.
pub record Sanitized {Value : Type 0} (run : Run Value) (tier : TrustTier)
    (raw out : ToolOutput Value) : Type 0 where
  pub trusted : ¬ (tier ≡ untrusted) → out ≡ raw
  pub no_data : raw.payload ≡ none → out ≡ raw
  pub harmless : (v : Value) → raw.payload ≡ some v → ¬ Mentions (run.to_text v) → out ≡ raw
  pub filtered :
      (v : Value)
      → tier ≡ untrusted
      → raw.payload ≡ some v
      → Mentions (run.to_text v)
      → (t : String) × Filtered (run.to_text v) t
        × (out ≡ record raw { payload = some (run.result_object t) })

-- All that a successful call went through.
pub record Cleared {Value : Type 0} (run : Run Value) (request_id : String)
    (x : SkillExecutor Value) (id : SkillId) (tool_name : String) (params : ToolParams Value)
    (out : ToolOutput Value) : Type 0 where
  pub skill : Skill Value
  pub manifest : SkillManifest Value
  pub tier : TrustTier
  pub tool : ToolDescriptor Value
  pub raw : ToolOutput Value
  pub limits : ResourceLimits
  pub registered : get_skill x.registry id ≡ ok (skill, manifest, tier)
  pub listed : Elem tool skill.tools
  pub named : tool.name ≡ tool_name
  pub permitted :
      (d : String) → AsksFirst d tool.required_permissions → Granted manifest.permissions tier d
  pub open_limiter : x.closed ≡ false
  pub overridden : (l : ResourceLimits) → x.limits_override ≡ some l → limits ≡ l
  pub by_tier : x.limits_override ≡ none → limits ≡ for_tier tier
  pub in_time :
      run.timeout skill limits.max_cpu_ms tool_name params
        (record { request_id = request_id; user_id = none })
      ≡ some (ok raw)
  pub sanitized : Sanitized run tier raw out

module _ {Value : Type 0} (run : Run Value) (request_id : String) (x : SkillExecutor Value)
    (id : SkillId) (tool_name : String) (params : ToolParams Value) where
  abbrev context : ExecutionContext
  context = record { request_id = request_id; user_id = none }

  acquire-ok : acquire x ≡ ok tt → x.closed ≡ false
  acquire-ok h = ground arith

  within_timeout-ok :
      (s : Skill Value) (ms : ℕ) {raw : ToolOutput Value}
      → within_timeout run s ms tool_name params context ≡ ok raw
      → run.timeout s ms tool_name params context ≡ some (ok raw)
  unfolding within_timeout
  within_timeout-ok s ms h = ground arith

  unit : (u : Unit {0}) → ok u ≡ ok tt
  unit tt = refl

  -- What `sanitize` makes of an untrusted skill's output, by its data
  abbrev by_data : ToolOutput Value → Option Value → ToolOutput Value
  by_data raw none = raw
  by_data raw (some v) =
      if contains_text (run.to_text v) "tool_request"
      then record raw {
        payload =
            some (run.result_object (replace_text "tool_request" "[filtered]" (run.to_text v)));
      }
      else raw

  sanitize-by_data :
      (raw : ToolOutput Value) (o : Option Value)
      → raw.payload ≡ o
      → sanitize run untrusted raw ≡ by_data raw o
  unfolding sanitize
  sanitize-by_data raw none e = ap (λ o. elim o [ none ↦ raw | some v ↦ by_data raw (some v) ]) e
  sanitize-by_data raw (some u) e =
      ap (λ o. elim o [ none ↦ raw | some v ↦ by_data raw (some v) ]) e

  data_filtered :
      (raw : ToolOutput Value) (v : Value)
      → contains_text (run.to_text v) "tool_request" ≡ true
      → by_data raw (some v) ≡ record raw {
        payload =
            some (run.result_object (replace_text "tool_request" "[filtered]" (run.to_text v)));
      }
  data_filtered raw v e = rw e refl

  data_kept :
      (raw : ToolOutput Value) (v : Value)
      → contains_text (run.to_text v) "tool_request" ≡ false
      → by_data raw (some v) ≡ raw
  data_kept raw v e = rw e refl

  sanitize-Sanitized :
      (t : TrustTier) (raw : ToolOutput Value) → Sanitized run t raw (sanitize run t raw)
  unfolding sanitize
  sanitize-Sanitized TrustTier.untrusted raw = record {
    trusted = λ other. absurd (other refl);
    no_data = λ e. sanitize-by_data raw none e;
    harmless = λ v e clean.
        sanitize-by_data raw (some v) e
        ∙ data_kept raw v (
            false_of_not (contains_text (run.to_text v) "tool_request")
              (contains_text_iff (run.to_text v) "tool_request") clean);
    filtered = λ v e0 e mentioned. (
      replace_text "tool_request" "[filtered]" (run.to_text v),
      replace_text-Filtered (run.to_text v),
      sanitize-by_data raw (some v) e
          ∙ data_filtered raw v ((contains_text_iff (run.to_text v) "tool_request").1 mentioned),
    );
  }
  sanitize-Sanitized TrustTier.verified raw = record {
    trusted = λ other. refl;
    no_data = λ e. refl;
    harmless = λ v e clean. refl;
    filtered = λ v e0 e mentioned. cc;
  }
  sanitize-Sanitized TrustTier.agent_built raw = record {
    trusted = λ other. refl;
    no_data = λ e. refl;
    harmless = λ v e clean. refl;
    filtered = λ v e0 e mentioned. cc;
  }

  limits_overridden :
      (t : TrustTier) (l : ResourceLimits) → x.limits_override ≡ some l → effective_limits x t ≡ l
  limits_overridden t l e = rw e refl

  limits_by_tier : (t : TrustTier) → x.limits_override ≡ none → effective_limits x t ≡ for_tier t
  limits_by_tier t e = rw e refl

  permitted_for :
      (tier : TrustTier) (perms asked : List Permission) (d : String)
      → Passes perms tier (audit_action_for_tool asked)
      → AsksFirst d asked
      → Granted perms tier d
  permitted_for tier perms asked d passes first =
      subst (Passes perms tier) (audit-AsksFirst d asked first) passes

  q_is :
      (s : Skill Value) {tool : ToolDescriptor Value}
      → find_tool s tool_name ≡ some tool
      → find_first (λ t. t.name == tool_name) s.tools ≡ some tool
  unfolding find_tool
  q_is s h = h

  ok-injective : {a b : ToolOutput Value} → ok a ≡ ok b → a ≡ b
  ok-injective h = cc

  -- The call from the gate on.
  finish :
      (s : Skill Value) (m : SkillManifest Value) (t : TrustTier) (tool : ToolDescriptor Value)
      {out : ToolOutput Value}
      → get_skill x.registry id ≡ ok (s, m, t)
      → find_tool s tool_name ≡ some tool
      → (gate tool_name t
            (fresh tool_name t m.id m.permissions (effective_limits x t))
            (audit_action_for_tool tool.required_permissions)
          >> (acquire x
              >> (within_timeout run s (effective_limits x t).max_cpu_ms tool_name params context
                  >>= λ output. ok (sanitize run t output))))
        ≡ ok out
      → Cleared run request_id x id tool_name params out
  finish s m t tool {out} p q h =
      let (u, gated, h3) =
        >>=-eq-ok
          (gate tool_name t (fresh tool_name t m.id m.permissions (effective_limits x t))
            (audit_action_for_tool tool.required_permissions))
          _ h in
      let (v, c, h4) = >>=-eq-ok (acquire x) _ h3 in
      let (raw, timed, h5) =
        >>=-eq-ok (within_timeout run s (effective_limits x t).max_cpu_ms tool_name params context)
          _ h4 in
      record {
        skill = s;
        manifest = m;
        tier = t;
        tool = tool;
        raw = raw;
        limits = effective_limits x t;
        registered = p;
        listed = (find_first-Elem (λ t. t.name == tool_name) s.tools (q_is s q)).0;
        named = (eq_iff _ _).0 (find_first-Elem (λ t. t.name == tool_name) s.tools (q_is s q)).1;
        overridden = limits_overridden t;
        by_tier = limits_by_tier t;
        permitted = λ d. permitted_for t m.permissions tool.required_permissions d (
            gate-Passes tool_name t m.id m.permissions (effective_limits x t)
              (audit_action_for_tool tool.required_permissions)
              (audited_judged tool.required_permissions) (gated ∙ unit u));
        open_limiter = acquire-ok (c ∙ unit v);
        in_time = within_timeout-ok s (effective_limits x t).max_cpu_ms timed;
        sanitized = subst (Sanitized run t raw) (ok-injective h5) (sanitize-Sanitized t raw);
      }

  refused :
      (m : SkillManifest Value) (t : TrustTier) (d : String)
      → ¬ Granted m.permissions t d
      → (check_permission
          (fresh tool_name t m.id m.permissions (effective_limits x t))
          (network_request d)).1
        ≡ false
  refused m t d none_grants =
      elim (Bool-cases
        (check_permission (fresh tool_name t m.id m.permissions (effective_limits x t))
          (network_request d)).1) [
            | inl passed ↦ absurd (
                none_grants (
                  verdict tool_name t m.id m.permissions (effective_limits x t) (network_request d)
                    refl passed))
            | inr denied ↦ denied
          ]

  -- When the first network permission of a tool asks for a domain, and no permission that the manifest
  -- asks for and the tier admits grants it, a call of the tool fails with the denial, whatever the skill
  -- would answer.
  pub execute-denied :
      {s : Skill Value} {m : SkillManifest Value} {t : TrustTier} {tool : ToolDescriptor Value}
      (d : String)
      → get_skill x.registry id ≡ ok (s, m, t)
      → find_tool s tool_name ≡ some tool
      → AsksFirst d tool.required_permissions
      → ¬ Granted m.permissions t d
      → execute run request_id x id tool_name params ≡ err (denial tool_name t)
  unfolding execute gate
  execute-denied {s} {m} {t} {tool} d p q asks none_grants =
      rw (p, ◌>>=◌)
        (rw (q, ◌>>=◌)
          (rw (audit-AsksFirst d tool.required_permissions asks, ◌>>=◌)
            (rw (refused m t d none_grants, ◌>>=◌) refl)))
