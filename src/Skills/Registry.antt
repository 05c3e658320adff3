-- ===== src/Skills/Registry.antt =====
-- crates/orion-skills/src/registry.rs and skill.rs: the registered skills behind a lock. A lock is
-- poisoned after a panic of a writer; every operation then fails. `Value` is a JSON value.
pub mod Laws
use orion_dock.Prelude.{
  ℕ, ◌-◌, String, ◌≡◌, refl, Bool, false, not, Option, none, some, List, [], map, if◌then◌else◌,
  any, keep, ◌==◌, Dict, lookup, remove, insert,
}
use orion_dock.Skills.Manifest.{
  TrustTier, default_tier, SkillId, CapabilityDescriptor, SecretDescriptor, SkillManifest,
  Permission,
}

pub data SkillError : Type 0 where
  not_found : SkillId → SkillError
  init_failed tool_failed permission_denied timeout missing_secret : String → SkillError

pub data SkillResult (A : Type 0) : Type 0 where
  ok : A → SkillResult A
  err : SkillError → SkillResult A

-- `?`: an error ends the call.
infixl 5 ◌>>=◌
abbrev pub ◌>>=◌ : {A B : Type 0} → SkillResult A → (A → SkillResult B) → SkillResult B
ok value >>= rest = rest value
err failure >>= rest = err failure

pub >>=-eq-ok :
    {A B : Type 0} (step : SkillResult A) (rest : A → SkillResult B) {out : B}
    → (step >>= rest) ≡ ok out
    → (value : A) × (step ≡ ok value) × (rest value ≡ ok out)
>>=-eq-ok (err failure) rest e = cc
>>=-eq-ok (ok value) rest e = (value, refl, e)

infixl 5 ◌>>◌
abbrev pub ◌>>◌ : {B : Type 0} → SkillResult (Unit {0}) → SkillResult B → SkillResult B
step >> rest = step >>= (λ done. rest)

pub record CostEstimate : Type 0 where
  pub latency_ms : ℕ
  pub network_bound : Bool
  pub token_cost : Option ℕ

pub record ToolDescriptor (Value : Type 0) : Type 0 where
  pub name : String
  pub description : String
  pub parameters : Value
  pub returns : Value
  pub cost_estimate : CostEstimate
  pub required_permissions : List Permission
  pub autonomous : Bool
  pub requires_confirmation : Bool

-- The part of the `Skill` trait that the registry and the executor read.
pub record Skill (Value : Type 0) : Type 0 where
  pub manifest : SkillManifest Value
  pub tools : List (ToolDescriptor Value)

pub record RegisteredSkill (Value : Type 0) : Type 0 where
  pub skill : Skill Value
  pub manifest : SkillManifest Value
  pub trust_tier : TrustTier

pub record MissingSkillSecret : Type 0 where
  pub skill_id : String
  pub skill_name : String
  pub secret_name : String
  pub secret_description : String
  pub required : Bool

-- A keychain behind its mutex: what `exists` answers.
pub record Vault : Type 0 where
  pub poisoned : Bool
  pub holds : String → Bool

pub record SkillRegistry (Value : Type 0) : Type 0 where
  pub skills : Dict (RegisteredSkill Value)
  pub poisoned : Bool
  pub skill_paths : List String
  pub secrets : Option Vault

-- `PoisonError::to_string`
abbrev pub poison_text : String
poison_text = "poisoned lock: another task failed inside"

module _ {Value : Type 0} where
  abbrev pub new : SkillRegistry Value
  new = record { skills = []; poisoned = false; skill_paths = []; secrets = none }

  abbrev pub with_secrets : Vault → SkillRegistry Value
  with_secrets secrets = record {
    skills = [];
    poisoned = false;
    skill_paths = [];
    secrets = some secrets;
  }

  unfoldable pub register_with_tier :
      SkillRegistry Value
      → SkillId
      → Skill Value
      → TrustTier
      → SkillRegistry Value × SkillResult (Unit {0})
  register_with_tier r skill_id skill trust_tier =
      let entry : RegisteredSkill Value = record {
        skill = skill;
        manifest = skill.manifest;
        trust_tier = trust_tier;
      } in
      if r.poisoned
      then (r, err (init_failed poison_text))
      else (record r { skills = insert skill_id.text entry r.skills }, ok tt)

  unfoldable pub register :
      SkillRegistry Value → SkillId → Skill Value → SkillRegistry Value × SkillResult (Unit {0})
  unfolding register_with_tier
  register r skill_id skill = register_with_tier r skill_id skill default_tier

  unfoldable pub unregister :
      SkillRegistry Value → SkillId → SkillRegistry Value × SkillResult (Unit {0})
  unregister r skill_id =
      if r.poisoned
      then (r, err (init_failed poison_text))
      else (record r { skills = remove skill_id.text r.skills }, ok tt)

  unfoldable pub list_with_tiers :
      SkillRegistry Value → SkillResult (List (SkillManifest Value × TrustTier))
  list_with_tiers r =
      if r.poisoned
      then err (init_failed poison_text)
      else ok (map (λ e. (e.1.manifest, e.1.trust_tier)) r.skills)

  unfoldable pub list : SkillRegistry Value → SkillResult (List (SkillManifest Value))
  list r =
      if r.poisoned then err (init_failed poison_text) else ok (map (λ e. e.1.manifest) r.skills)

  unfoldable pub get_skill :
      SkillRegistry Value → SkillId → SkillResult (Skill Value × SkillManifest Value × TrustTier)
  get_skill r skill_id =
      if r.poisoned then err (init_failed poison_text) else elim (lookup skill_id.text r.skills) [
        | none ↦ err (not_found skill_id)
        | some reg ↦ ok (reg.skill, reg.manifest, reg.trust_tier)
      ]

  abbrev pub provides : String → RegisteredSkill Value → Bool
  provides capability r = any (λ c. c.capability_type == capability) r.manifest.capabilities

  unfoldable pub find_by_capability : SkillRegistry Value → String → List SkillId
  find_by_capability r capability =
      if r.poisoned
      then []
      else map (λ e. record { text = e.0 }) (keep (λ e. provides capability e.1) r.skills)

  abbrev missing : SkillManifest Value → SecretDescriptor → MissingSkillSecret
  missing m s = record {
    skill_id = m.id.text;
    skill_name = m.name;
    secret_name = s.name;
    secret_description = s.description;
    required = s.required;
  }

  unfoldable pub check_missing_secrets :
      SkillRegistry Value → SkillManifest Value → List MissingSkillSecret
  check_missing_secrets r m = elim r.secrets [
    | none ↦ []
    | some vault ↦
        if vault.poisoned
        then []
        else map (missing m) (keep (λ s. not (vault.holds s.name)) m.secrets)
  ]
