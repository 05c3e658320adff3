-- ===== src/Birth/Restart.antt =====
-- `BirthOrchestrator::new` of crates/orion-birth/src/stages.rs after a restart.
use orion_dock.Prelude.{◌≡◌, refl, sym, ap, ◌∙◌, false, none, some}
use mathlib.Core.Option.{some-injective}
use orion_dock.Birth.Stage.{BirthStage, name}
use orion_dock.Birth.Machine.{
  BirthError, Config, World, pure, fallible, has_birth, is_born, io, ok, err,
}
use orion_dock.Birth.Orchestrator.{Platform, BirthOrchestrator, Birth, save, enter, persist_stage}
use orion_dock.Birth.Ceremony.{restored, fresh, new, effective_agent_id}
use orion_dock.Birth.Emergence.{and_then-ok, outside-ok, refused-ok, fallible-ok}
use orion_dock.Birth.Monotone.{has_birth-answer}
use orion_dock.Birth.Stage.{from_name_iff}

module _ {Engine : Type 0} (platform : Platform Engine) where
  new-ok :
      (c : Config) (w w' : World) (o : BirthOrchestrator Engine)
      → new platform c w ≡ (ok o, w')
      → (is_born (effective_agent_id platform c) w ≡ false) × (o ≡ fresh platform c)
  unfolding new
  new-ok c w w' o h =
      let (a, u, opened, rest) = and_then-ok (fallible BirthError.store (λ w. w) w) _ o w' h in
      let u_is = fallible-ok BirthError.store (λ w. w) w u opened in
      let (b, v, asked, rest') =
        and_then-ok (has_birth (effective_agent_id platform c) u) _ o w' rest in
      let (same, answer) = has_birth-answer (effective_agent_id platform c) u b v asked in
      let (unborn, made) =
        refused-ok b BirthError.already_born (pure (fresh platform c)) v w' o rest' in
      (
        ap (is_born (effective_agent_id platform c)) (sym u_is) ∙ (sym answer ∙ unborn),
        sym (ap (λ p. elim p.0 [ ok x ↦ x | err e ↦ fresh platform c ]) made),
      )

  -- A stage that was entered and saved is the stage of an orchestrator that the saved configuration
  -- makes; that one holds no key, and is made only for an agent that is not born.
  pub enter-new :
      (stage : BirthStage) (b b' : Birth Engine)
      → enter stage b ≡ (ok tt, b')
      → (c : Config) (w w' : World) (o : BirthOrchestrator Engine) → b'.world.saved ≡ some c
      → new platform c w ≡ (ok o, w')
      → (o.stage ≡ stage)
        × (o.signing_key ≡ none)
        × (is_born (effective_agent_id platform c) w ≡ false)
  unfolding enter persist_stage save
  enter-new stage b b' h c w w' o saved made =
      let b1 : Birth Engine = record b {
        orchestrator = record b.orchestrator {
          stage = stage;
          config = record b.orchestrator.config { birth_stage = some (name stage) };
        };
      } in
      let (u, saving, after) =
        outside-ok (fallible io (λ w. record w { saved = some b1.orchestrator.config })) b1 b' tt
          h in
      let u_is =
        fallible-ok io (λ w. record w { saved = some b1.orchestrator.config }) b1.world u saving in
      let c_is : c ≡ b1.orchestrator.config =
        some-injective _ _ (sym saved ∙ (ap (λ d. d.world.saved) after ∙ ap (λ w. w.saved) u_is)) in
      let (unborn, o_is) = new-ok c w w' o made in
      let stage_is : (fresh platform c).stage ≡ stage =
        ap (λ c. (fresh platform c).stage) c_is
        ∙ rw ((from_name_iff (name stage) stage).1 refl, restored) refl in
      (ap (λ o. o.stage) o_is ∙ stage_is, ap (λ o. o.signing_key) o_is, unborn)
