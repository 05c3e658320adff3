-- ===== src/Skills/Registry/Laws.antt =====
-- The look-ups of crates/orion-skills/src/registry.rs after its changes.
use orion_dock.Prelude.{
  ◌≡◌, ◌∙◌, true, false, arith, eq_refl, if◌then◌else◌, ◌==◌, lookup-remove, lookup-insert,
}
use orion_dock.Skills.Manifest.{TrustTier, untrusted, SkillId}
use orion_dock.Skills.Registry.{
  not_found, init_failed, ok, err, Skill, SkillRegistry, poison_text, register_with_tier, register,
  unregister, get_skill,
}

module _ {Value : Type 0} where
  -- After a registration the id finds the new skill, with its own manifest and tier, and every
  -- other id what it found before; on a poisoned lock both fail and the registry is unchanged.
  get_skill-register_with_tier :
      (r : SkillRegistry Value) (id other : SkillId) (s : Skill Value) (t : TrustTier)
      → let (r', result) = register_with_tier r id s t in
        (r.poisoned ≡ false
          → (result ≡ ok tt)
            × (get_skill r' other
                ≡ (if id.text == other.text then ok (s, s.manifest, t) else get_skill r other)))
        × (r.poisoned ≡ true
            → (r' ≡ r)
              × (result ≡ err (init_failed poison_text))
              × (get_skill r other ≡ err (init_failed poison_text)))
  unfolding register_with_tier get_skill
  get_skill-register_with_tier r id other s t = ground (
    arith,
    lookup-insert id.text other.text (record { skill = s; manifest = s.manifest; trust_tier = t })
        r.skills,
  )

  -- A skill registered without a tier is found as an untrusted one.
  pub get_skill-register :
      (r : SkillRegistry Value) (id : SkillId) (s : Skill Value)
      → r.poisoned ≡ false
      → get_skill (register r id s).0 id ≡ ok (s, s.manifest, untrusted)
  unfolding register
  get_skill-register r id s h =
      let (result, found) = (get_skill-register_with_tier r id id s untrusted).0 h in
      found ∙ rw (eq_refl id.text)

  -- After an unregistration the id is not found, and every other id finds what it found before.
  pub get_skill-unregister :
      (r : SkillRegistry Value) (id other : SkillId)
      → r.poisoned ≡ false
      → get_skill (unregister r id).0 other
        ≡ (if id.text == other.text then err (not_found other) else get_skill r other)
  unfolding unregister get_skill
  get_skill-unregister r id other h = ground (arith, lookup-remove id.text other.text r.skills)
