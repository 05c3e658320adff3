-- ===== src/Birth/Liveness.antt =====
-- crates/orion-birth/src/stages.rs: the birth from its first stage to its end, when nothing outside
-- fails.
use orion_dock.Birth.Signing.{complete_emergence-Done}
use orion_dock.Birth.Documents.{Keyed, crystallize_soul-Ready}
use orion_dock.Prelude.{ℕ, ◌+◌, String, ◌≡◌, true, false, some, [], arith, length}
use orion_dock.Birth.Stage.{BirthStage, GenesisPath}
use orion_dock.Birth.Machine.{Run, ok, ◌>>◌, is_born}
use orion_dock.Birth.Orchestrator.{Platform, Birth, advance_past_darkness, advance_to_connectivity}
use orion_dock.Birth.Ceremony.{
  generate_identity, advance_to_genesis_with_path, crystallize_soul, complete_emergence,
}
use orion_dock.Birth.Success.{◌⨾◌, Succeeds, Calm}

module _ {Engine : Type 0} (platform : Platform Engine) where
  advance_past_darkness-Keyed :
      Succeeds
        (Keyed platform BirthStage.darkness)
        advance_past_darkness
        (Keyed platform BirthStage.ignition)
  unfolding advance_past_darkness
  advance_past_darkness-Keyed = record { run = λ b h. ground arith }

  advance_to_connectivity-Keyed :
      Succeeds
        (Keyed platform BirthStage.ignition)
        advance_to_connectivity
        (Keyed platform BirthStage.connectivity)
  unfolding advance_to_connectivity
  advance_to_connectivity-Keyed = record { run = λ b h. ground arith }

  advance_to_genesis-Keyed :
      (path : GenesisPath)
      → Succeeds
          (Keyed platform BirthStage.connectivity)
          (advance_to_genesis_with_path platform path)
          (Keyed platform BirthStage.genesis)
  unfolding advance_to_genesis_with_path
  advance_to_genesis-Keyed path = record { run = λ b h. ground arith }

  generate_identity-Keyed :
      ((n : ℕ) → length (platform.generate n) ≡ 32)
      → ((n : ℕ)
          → platform.decode (platform.encode (platform.generate n)) ≡ some (platform.generate n))
      → Succeeds
          (Calm BirthStage.darkness)
          (generate_identity platform)
          (Keyed platform BirthStage.darkness)
  unfolding generate_identity
  generate_identity-Keyed long readable = record {
    run = λ b h. ground (arith, long (b.world.ticks + 1), readable (b.world.ticks + 1));
  }

  -- The steps of a birth, in their order.
  abbrev pub ceremony : GenesisPath → String → String → Run (Birth Engine) Unit
  ceremony path soul_content growth_content = do
    generate_identity platform
    advance_past_darkness
    advance_to_connectivity
    advance_to_genesis_with_path platform path
    crystallize_soul platform soul_content growth_content
    complete_emergence platform

  -- When keys have 32 bytes and can be read back from their text, and no operation outside fails: the
  -- steps of the birth succeed from its first stage on, on any files, and leave the agent born, in the
  -- store and in its configuration.
  pub ceremony-completes :
      ((n : ℕ) → length (platform.generate n) ≡ 32)
      → ((n : ℕ)
          → platform.decode (platform.encode (platform.generate n)) ≡ some (platform.generate n))
      → (path : GenesisPath) (soul_content growth_content : String) (b : Birth Engine)
      → b.world.faults ≡ []
      → b.orchestrator.stage ≡ BirthStage.darkness
      → is_born b.orchestrator.agent_id b.world ≡ false
      → let after = ceremony path soul_content growth_content b in
        (after.0 ≡ ok tt)
        × (after.1.orchestrator.config.birth_complete ≡ true)
        × (is_born after.1.orchestrator.agent_id after.1.world ≡ true)
  ceremony-completes long readable path soul_content growth_content b quiet at unborn =
      let (good, (complete, born)) =
        (generate_identity-Keyed long readable
            ⨾ advance_past_darkness-Keyed
            ⨾ advance_to_connectivity-Keyed
            ⨾ advance_to_genesis-Keyed path
            ⨾ crystallize_soul-Ready platform soul_content growth_content
            ⨾ complete_emergence-Done platform).run
          b (quiet, at, unborn) in
      (good, complete, born)
