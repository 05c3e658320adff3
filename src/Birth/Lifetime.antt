-- ===== src/Birth/Lifetime.antt =====
-- A life as a sequence of operations on the orchestrator of crates/orion-birth/src/stages.rs.
use orion_dock.Prelude.{
  ℕ, ◌+◌, String, refl, inl, inr, not, ◌&&◌, Option, none, some, List, [], ◌∷◌, arith, eqb,
  Bool-cases, Option-cases, length, ◌⧺◌, lookup,
}
use orion_dock.Birth.Stage.{BirthStage, is_stage, GenesisPath}
use orion_dock.Birth.Machine.{Run, ◌>>◌, pure, fallible, write, exists, has_birth, record_birth, io}
use orion_dock.Birth.Orchestrator.{
  Platform, Birth, outside, modify, save, enter, advance_past_darkness, advance_to_connectivity,
  advance_to_genesis, set_genesis_path, add_message, clear_conversation, skip_to_emergence,
  set_signing_key_bytes, take_signing_key_bytes, set_mentor_name,
}
use orion_dock.Birth.Ceremony.{
  point_to, take_key, make_key, is_held, hold_decoded, forget_private_key, completed, try_sign_with,
  try_sign, sign_with, birth_text, adopt, write_json, engine_for, write_templates, write_missing,
  guard_stage, SoulManifest, path_in, generate_external_keypair, generate_identity,
  advance_to_genesis_with_path, crystallize_soul, crystallize_from_manifest, sign_file, sign_all,
  finish, refuse_born, complete_emergence, complete_birth, constitution,
}
use orion_dock.Birth.Monotone.{
  write-Keeps, nothing-Keeps, Keeps, Later, Later-trans, same_births, fallible-Keeps, seq-Keeps,
  has_birth-Keeps, record_birth-Keeps,
}
use orion_dock.Birth.Forward.{
  rank-emergence, unmoved, Forward, is_stage_iff, seq-Forward, outside-Forward, save-Forward,
  enter-Later, here-Later, then-Forward, write-Forward, nothing-Forward, emergence-Forward,
  advance_past_darkness-Forward, advance_to_connectivity-Forward, advance_to_genesis-Forward,
  set_signing_key_bytes-Forward,
}

pub data Operation : Type 0 where
  identity past_darkness to_connectivity to_genesis clear skip emerge legacy give_up_key : Operation
  choose_path to_genesis_with_path : GenesisPath → Operation
  say crystallize : String → String → Operation
  crystallize_manifest : SoulManifest → Operation
  give_key : List ℕ → Operation
  name_mentor : String → Operation

module _ {Engine : Type 0} (platform : Platform Engine) where
  write_missing-Forward : (path content : String) → Forward (write_missing platform path content)
  write_missing-Forward path content b = elim (Bool-cases (exists path b.world)) [
    | inl there' ↦ rw (there', write_missing) (here-Later b)
    | inr missing ↦ rw (missing, write_missing) (write-Forward path content b)
  ]

  write_templates-Forward : (docs_dir : String) → Forward (write_templates platform docs_dir)
  write_templates-Forward docs_dir =
      seq-Forward
        (write_missing platform (path_in platform docs_dir "ethics.md") platform.ethics_md) _
        (write_missing-Forward _ _) (λ a. write_missing-Forward _ _)

  guard_stage-Forward : (stage : BirthStage) → Forward (guard_stage platform stage)
  guard_stage-Forward stage b = elim (Bool-cases (is_stage b.orchestrator.stage stage)) [
    | inl right ↦ rw (right, guard_stage) (here-Later b)
    | inr wrong ↦ rw (wrong, guard_stage) (here-Later b)
  ]

  crystallize_soul-Forward :
      (soul growth : String) → Forward (crystallize_soul platform soul growth)
  unfolding crystallize_soul
  crystallize_soul-Forward soul growth b =
      let docs = b.orchestrator.config.docs_dir in
      then-Forward (guard_stage platform BirthStage.genesis) _ (guard_stage-Forward _)
        (then-Forward (outside (fallible io (λ w. w))) _ nothing-Forward (
          then-Forward (outside (write (path_in platform docs "soul.md") soul)) _
            (write-Forward _ _)
            (then-Forward (outside (write (path_in platform docs "growth.md") growth)) _
              (write-Forward _ _)
              (then-Forward (write_templates platform docs) _ (write_templates-Forward docs)
                emergence-Forward))))
        b

  write_json-Forward :
      (path : String) (json : Option String) → Forward (write_json platform path json)
  write_json-Forward path none = here-Later
  write_json-Forward path (some json) = outside-Forward (fallible io (λ w. w) >> write path json) (
      seq-Keeps (fallible io (λ w. w)) (λ a. write path json) (nothing-Keeps)
        (λ a. write-Keeps path json))

  crystallize_from_manifest-Forward :
      (m : SoulManifest) → Forward (crystallize_from_manifest platform m)
  unfolding crystallize_from_manifest
  crystallize_from_manifest-Forward m b =
      let docs = b.orchestrator.config.docs_dir in
      then-Forward (guard_stage platform BirthStage.genesis) _ (guard_stage-Forward _)
        (then-Forward (outside (fallible io (λ w. w))) _ nothing-Forward (
          then-Forward
            (outside (write (path_in platform docs "soul.md") (m.soul_content ⧺ m.genesis_block))) _
            (write-Forward _ _)
            (then-Forward (outside (write (path_in platform docs "growth.md") m.growth_content)) _
              (write-Forward _ _)
              (then-Forward (write_json platform (path_in platform docs "soul.json") m.soul_json) _
                (write_json-Forward _ m.soul_json)
                (then-Forward (write_templates platform docs) _ (write_templates-Forward docs) (
                  then-Forward (modify (adopt m)) (enter BirthStage.emergence)
                    (unmoved (adopt m) (λ o. (refl, refl))) emergence-Forward))))))
        b

  advance_to_genesis_with_path-Forward :
      (path : GenesisPath) → Forward (advance_to_genesis_with_path platform path)
  unfolding advance_to_genesis_with_path
  advance_to_genesis_with_path-Forward path b =
      elim (Bool-cases (is_stage b.orchestrator.stage BirthStage.connectivity)) [
        | inl now ↦
            rw (now, advance_to_genesis_with_path)
              (Later-trans
                {b = record b {
                  orchestrator = record b.orchestrator {
                    genesis_path = some path;
                    crystallization_engine =
                        engine_for platform path b.orchestrator.crystallization_engine;
                  };
                }}
                (record { forward = omega arith; same_agent = refl; kept = same_births refl refl })
                (enter-Later BirthStage.genesis _ (rw (is_stage_iff _ _ now) (omega arith))))
        | inr past ↦ rw (past, advance_to_genesis_with_path) (here-Later b)
      ]

  sign_file-Keeps : (key : List ℕ) (docs doc : String) → Keeps (sign_file platform key docs doc)
  unfolding sign_file
  sign_file-Keeps key docs doc w =
      elim (Option-cases (lookup (path_in platform docs doc) w.files)) [
        | inl missing ↦ rw (missing, sign_file) (same_births refl refl)
        | inr (content, there') ↦
            rw (there', sign_file)
              (seq-Keeps (fallible io (λ w. w)) _ nothing-Keeps
                (λ a v.
                  write-Keeps (path_in platform docs (doc ⧺ ".sig"))
                    (platform.sign key doc content v.ticks) v)
                w)
      ]

  sign_all-Keeps :
      (key : List ℕ) (docs : String) (l : List String) → Keeps (sign_all platform key docs l)
  unfolding sign_all
  sign_all-Keeps key docs [] = λ w. same_births refl refl
  sign_all-Keeps key docs (doc ∷ l) =
      seq-Keeps (sign_file platform key docs doc) _ (sign_file-Keeps key docs doc)
        (λ a. sign_all-Keeps key docs l)

  refuse_born-Forward : Forward (refuse_born platform)
  unfolding refuse_born
  refuse_born-Forward b =
      seq-Forward (outside (has_birth b.orchestrator.agent_id)) _
        (outside-Forward (has_birth _) (has_birth-Keeps _))
        (λ born c. elim (Bool-cases born) [
          | inl old ↦ rw old (here-Later c)
          | inr new' ↦ rw new' (here-Later c)
        ])
        b

  finish-Forward : Forward (finish platform)
  unfolding finish
  finish-Forward b =
      let born_at = platform.now b.world.ticks in
      then-Forward (outside (record_birth b.orchestrator.agent_id (birth_text born_at))) _
        (outside-Forward (record_birth _ _) (record_birth-Keeps _ _))
        (then-Forward (modify (completed born_at)) save
          (unmoved (completed born_at) (λ o. (refl, refl))) save-Forward)
        b

  take_key-Forward :
      (k : Option (List ℕ) → Run (Birth Engine) Unit)
      → ((o : Option (List ℕ)) → Forward (k o))
      → Forward (take_key platform k)
  take_key-Forward k h b =
      Later-trans {b = record b { orchestrator = record b.orchestrator { signing_key = none } }}
        (record { forward = omega arith; same_agent = refl; kept = same_births refl refl })
        (h b.orchestrator.signing_key _)

  sign_with-Forward :
      (docs : String) (key : Option (List ℕ)) → Forward (sign_with platform docs key)
  sign_with-Forward docs none = here-Later
  sign_with-Forward docs (some key) =
      outside-Forward (sign_all platform key docs constitution)
        (sign_all-Keeps key docs constitution)

  try_sign-Forward : (key : List ℕ) (docs : String) → Forward (try_sign platform key docs)
  try_sign-Forward key docs b = record {
    forward = omega arith;
    same_agent = refl;
    kept = sign_all-Keeps key docs constitution b.world;
  }

  try_sign_with-Forward :
      (docs : String) (key : Option (List ℕ)) → Forward (try_sign_with platform docs key)
  try_sign_with-Forward docs none b = here-Later b
  try_sign_with-Forward docs (some key) b =
      elim (Bool-cases (exists (path_in platform docs "soul.md") b.world)) [
        | inl written ↦ rw (written, try_sign_with) (try_sign-Forward key docs b)
        | inr unwritten ↦ rw (unwritten, try_sign_with) (here-Later b)
      ]

  pub complete_emergence-Forward : Forward (complete_emergence platform)
  unfolding complete_emergence
  complete_emergence-Forward b =
      let docs = b.orchestrator.config.docs_dir in
      then-Forward (guard_stage platform BirthStage.emergence) _ (guard_stage-Forward _)
        (then-Forward (take_key platform (sign_with platform docs)) _
          (take_key-Forward (sign_with platform docs) (sign_with-Forward docs))
          (then-Forward (modify forget_private_key) (refuse_born platform >> finish platform)
            (unmoved forget_private_key (λ o. (refl, refl)))
            (then-Forward (refuse_born platform) _ refuse_born-Forward finish-Forward)))
        b

  complete_birth-Forward : Forward (complete_birth platform)
  unfolding complete_birth
  complete_birth-Forward b =
      let docs = b.orchestrator.config.docs_dir in
      then-Forward (refuse_born platform) _ refuse_born-Forward
        (then-Forward (take_key platform (try_sign_with platform docs)) _
          (take_key-Forward (try_sign_with platform docs) (try_sign_with-Forward docs))
          (then-Forward (modify forget_private_key) (finish platform)
            (unmoved forget_private_key (λ o. (refl, refl))) finish-Forward))
        b

  generate_external_keypair-Keeps :
      (data_dir : String) → Keeps (generate_external_keypair platform data_dir)
  unfolding generate_external_keypair
  generate_external_keypair-Keeps data_dir =
      seq-Keeps (fallible io (λ w. record w { ticks = w.ticks + 1 })) _
        (fallible-Keeps io (λ w. record w { ticks = w.ticks + 1 }) (λ w. (refl, refl)))
        λ a.
          seq-Keeps
            (λ w.
              write (path_in platform data_dir "external_pubkey.bin")
                (platform.public_key (platform.generate w.ticks)) w)
            _ (λ w. write-Keeps _ _ w) λ a w. same_births refl refl

  hold_decoded-Forward :
      (text : String) (key : Option (List ℕ)) → Forward (hold_decoded platform text key)
  hold_decoded-Forward text none b = here-Later b
  hold_decoded-Forward text (some key) b = elim (Bool-cases (eqb (length key) 32)) [
    | inl good ↦
        rw (good, hold_decoded)
          (record { forward = omega arith; same_agent = refl; kept = same_births refl refl })
    | inr bad ↦ rw (bad, hold_decoded) (here-Later b)
  ]

  make_key-Forward : Forward (make_key platform)
  unfolding make_key
  make_key-Forward b =
      seq-Forward (outside (generate_external_keypair platform b.orchestrator.config.data_dir)) _
        (outside-Forward (generate_external_keypair platform _) (generate_external_keypair-Keeps _))
        (λ text.
          then-Forward (hold_decoded platform text (platform.decode text)) _
            (hold_decoded-Forward text (platform.decode text))
            (then-Forward
              (modify
                (point_to (path_in platform b.orchestrator.config.data_dir "external_pubkey.bin")))
              (save >> outside (fallible io (λ w. w))) (unmoved (point_to _) (λ o. (refl, refl)))
              (then-Forward save (outside (fallible io (λ w. w))) save-Forward nothing-Forward)))
        b

  generate_identity-Forward : Forward (generate_identity platform)
  unfolding generate_identity
  generate_identity-Forward b =
      elim (Bool-cases (not (is_stage b.orchestrator.stage BirthStage.darkness))) [
        | inl past ↦ rw (past, generate_identity) (here-Later b)
        | inr now ↦
            elim (Bool-cases (
              exists (path_in platform b.orchestrator.config.data_dir "external_pubkey.bin") b.world
              && is_held platform b.orchestrator.signing_key)) [
                | inl had ↦ rw (now, had, generate_identity) (here-Later b)
                | inr fresh ↦ rw (now, fresh, generate_identity) (make_key-Forward b)
              ]
      ]

  unfoldable pub perform : Operation → Run (Birth Engine) Unit
  perform Operation.identity = generate_identity platform
  perform Operation.past_darkness = advance_past_darkness
  perform Operation.to_connectivity = advance_to_connectivity
  perform Operation.to_genesis = advance_to_genesis
  perform Operation.clear = clear_conversation
  perform Operation.skip = skip_to_emergence
  perform Operation.emerge = complete_emergence platform
  perform Operation.legacy = complete_birth platform
  perform Operation.give_up_key = take_signing_key_bytes >> pure tt
  perform (Operation.choose_path path) = set_genesis_path path
  perform (Operation.to_genesis_with_path path) = advance_to_genesis_with_path platform path
  perform (Operation.say role content) = add_message role content
  perform (Operation.crystallize soul growth) = crystallize_soul platform soul growth
  perform (Operation.crystallize_manifest m) = crystallize_from_manifest platform m
  perform (Operation.give_key bytes) = set_signing_key_bytes bytes
  perform (Operation.name_mentor mentor) = set_mentor_name mentor

  perform-Forward : (op : Operation) → Forward (perform op)
  unfolding perform clear_conversation skip_to_emergence take_signing_key_bytes set_genesis_path
      add_message set_mentor_name
  perform-Forward Operation.identity = generate_identity-Forward
  perform-Forward Operation.past_darkness = advance_past_darkness-Forward
  perform-Forward Operation.to_connectivity = advance_to_connectivity-Forward
  perform-Forward Operation.to_genesis = advance_to_genesis-Forward
  perform-Forward Operation.clear =
      λ b. record { forward = omega arith; same_agent = refl; kept = same_births refl refl }
  perform-Forward Operation.skip = λ b. record {
    forward = rank-emergence b.orchestrator.stage;
    same_agent = refl;
    kept = same_births refl refl;
  }
  perform-Forward Operation.emerge = complete_emergence-Forward
  perform-Forward Operation.legacy = complete_birth-Forward
  perform-Forward Operation.give_up_key =
      λ b. record { forward = omega arith; same_agent = refl; kept = same_births refl refl }
  perform-Forward (Operation.choose_path path) =
      λ b. record { forward = omega arith; same_agent = refl; kept = same_births refl refl }
  perform-Forward (Operation.to_genesis_with_path path) = advance_to_genesis_with_path-Forward path
  perform-Forward (Operation.say role content) =
      λ b. record { forward = omega arith; same_agent = refl; kept = same_births refl refl }
  perform-Forward (Operation.crystallize soul growth) = crystallize_soul-Forward soul growth
  perform-Forward (Operation.crystallize_manifest m) = crystallize_from_manifest-Forward m
  perform-Forward (Operation.give_key bytes) = set_signing_key_bytes-Forward bytes
  perform-Forward (Operation.name_mentor mentor) =
      λ b. record { forward = omega arith; same_agent = refl; kept = same_births refl refl }

  -- The state after some operations, whether they fail or not.
  unfoldable pub live : List Operation → Birth Engine → Birth Engine
  unfolding perform
  live [] b = b
  live (op ∷ ops) b = live ops (perform op b).1

  -- Through any operations, failing or not, the stage never goes back, the agent and the store's kind
  -- stay, and a recorded birth stays as it was recorded.
  pub live-Later : (ops : List Operation) (b : Birth Engine) → Later b (live ops b)
  unfolding live
  live-Later [] b = here-Later b
  live-Later (op ∷ ops) b = Later-trans (perform-Forward op b) (live-Later ops (perform op b).1)
