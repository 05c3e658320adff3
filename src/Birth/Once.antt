-- ===== src/Birth/Once.antt =====
-- crates/orion-birth/src/stages.rs: a completion of the birth after another one.
use orion_dock.Birth.Lifetime.{live-Later, complete_emergence-Forward, live, Operation}
use orion_dock.Prelude.{
  Elem, not_both, String, ◌≡◌, refl, ◌∙◌, subst, ◌≢◌, inl, inr, Bool, true, false, some, List,
  eq_refl, Option-cases, lookup, lookup-insert,
}
use orion_dock.Birth.Monotone.{Later}
use orion_dock.Birth.Machine.{is_born, birth_row, ok}
use orion_dock.Birth.Orchestrator.{Platform, Birth}
use orion_dock.Birth.Ceremony.{
  document_files, complete_birth, refuse_born, complete_emergence, birth_text,
}
use orion_dock.Birth.Emergence.{and_then-ok, refuse_born-ok}
use orion_dock.Birth.Completion.{Born, complete_emergence-Born}

module _ {Engine : Type 0} (platform : Platform Engine) where
  abbrev born : Birth Engine → Bool
  born b = is_born b.orchestrator.agent_id b.world

  Born-born :
      (b b' : Birth Engine)
      → Born platform b b'
      → (birth_row b'.world.backend b'.orchestrator.agent_id)
        ≡ (birth_row b.world.backend b.orchestrator.agent_id)
      → born b' ≡ true
  Born-born b b' h same =
      let row = birth_row b.world.backend b.orchestrator.agent_id in
      let text = birth_text (platform.now b.world.ticks) in
      let found : lookup (birth_row b'.world.backend b'.orchestrator.agent_id) b'.world.births
          ≡ some text =
        rw (same, h.recorded) (lookup-insert row row text b.world.births ∙ rw (eq_refl row) refl) in
      rw (found, is_born) refl

  Later-born : (b c : Birth Engine) → Later b c → born b ≡ true → born c ≡ true
  Later-born b c h e =
      elim (Option-cases
        (lookup (birth_row b.world.backend b.orchestrator.agent_id) b.world.births)) [
          | inl nothing ↦ absurd (not_both e (rw (nothing, is_born) refl))
          | inr (m, found) ↦
              rw (h.same_agent, h.kept.same_backend, h.kept.recorded _ m found, is_born) refl
        ]

  -- Neither way to complete a birth succeeds for an agent that is born.
  complete_emergence-unborn :
      (join_apart : (d x y : String)
        → Elem x document_files
        → Elem y document_files
        → platform.join_path d x ≡ platform.join_path d y
        → x ≡ y)
      (b b' : Birth Engine)
      → complete_emergence platform b ≡ (ok tt, b')
      → born b ≡ false
  complete_emergence-unborn join_apart b b' h =
      (complete_emergence-Born platform join_apart b b' h).unborn

  complete_birth-unborn :
      (b b' : Birth Engine) → complete_birth platform b ≡ (ok tt, b') → born b ≡ false
  unfolding complete_birth
  complete_birth-unborn b b' h =
      let (a, c, refused, rest) = and_then-ok (refuse_born platform b) _ tt b' h in
      (refuse_born-ok platform b c refused).0

  -- When joining paths keeps the names of the three documents and of their signatures apart: after an
  -- emergence that succeeded, and any operations, neither way to complete a birth succeeds.
  pub birth_once :
      (join_apart : (d x y : String)
        → Elem x document_files
        → Elem y document_files
        → platform.join_path d x ≡ platform.join_path d y
        → x ≡ y)
      (b b' : Birth Engine) (ops : List Operation)
      → complete_emergence platform b ≡ (ok tt, b')
      → (c : Birth Engine)
      → (complete_emergence platform (live platform ops b') ≢ (ok tt, c))
        × (complete_birth platform (live platform ops b') ≢ (ok tt, c))
  birth_once join_apart b b' ops h c =
      let done = complete_emergence-Born platform join_apart b b' h in
      let later : Later b b' = subst (λ p. Later b p.1) h (complete_emergence-Forward platform b) in
      let born' = Born-born b b' done (rw (later.same_agent, later.kept.same_backend) refl) in
      let still = Later-born b' (live platform ops b') (live-Later platform ops b') born' in
      (
        λ again. not_both still (complete_emergence-unborn join_apart _ c again),
        λ again. not_both still (complete_birth-unborn _ c again),
      )
