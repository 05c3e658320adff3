-- ===== src/Birth/Ceremony.antt =====
-- The operations of `BirthOrchestrator` (crates/orion-birth/src/stages.rs) that write documents, make
-- or use the signing key, or record the birth, and `sign_constitutional_documents` of
-- crates/orion-core/src/keyring.rs.
use orion_dock.Prelude.{
  ℕ, ◌+◌, String, Bool, true, false, not, ◌&&◌, Option, none, some, List, [], ◌∷◌, eqb,
  if◌then◌else◌, length, ◌⧺◌, concat, lookup,
}
use orion_dock.Birth.Stage.{
  BirthStage, name, from_name, is_stage, GenesisPath, depth_to_crystallization_depth,
}
use orion_dock.Birth.Machine.{
  BirthError, Config, World, Run, ◌>>=◌, ◌>>◌, pure, fail, fallible, write, has_birth, record_birth,
  already_born, no_signing_key, stage_guard, io, ok,
}
use orion_dock.Birth.Orchestrator.{
  Platform, BirthOrchestrator, Birth, outside, modify, with_orchestrator, exists_file, save, enter,
}

-- A manifest, with the provenance section that `append_genesis_block` makes for it.
pub record SoulManifest : Type 0 where
  pub soul_content : String
  pub growth_content : String
  pub soul_json : Option String
  pub mentor_name : String
  pub agent_name : String
  pub genesis_block : String

abbrev or_text : Option String → String → String
or_text none t = t
or_text (some s) t = s

abbrev pub constitution : List String
constitution = "soul.md" ∷ "ethics.md" ∷ "instincts.md" ∷ []

-- The documents and the files of their signatures.
abbrev pub document_files : List String
document_files =
    "soul.md" ∷ "ethics.md" ∷ "instincts.md" ∷ "soul.md.sig" ∷ "ethics.md.sig" ∷ "instincts.md.sig"
    ∷ []

abbrev pub birth_text : String → String
birth_text born_at = concat ("I was born. First run completed at " ∷ born_at ∷ "." ∷ [])

module _ {Engine : Type 0} where
  -- A manifest's names; a mentor's name that is known already stays.
  abbrev pub adopt : SoulManifest → BirthOrchestrator Engine → BirthOrchestrator Engine
  adopt m o = record o {
    mentor_name = some (or_text o.mentor_name m.mentor_name);
    config = record o.config { agent_name = some m.agent_name };
  }

  abbrev pub point_to : String → BirthOrchestrator Engine → BirthOrchestrator Engine
  point_to path o = record o { config = record o.config { external_pubkey_path = some path } }

  abbrev pub completed : String → BirthOrchestrator Engine → BirthOrchestrator Engine
  completed born_at o = record o {
    config = record o.config {
      birth_complete = true;
      birth_timestamp = some born_at;
      birth_stage = none;
    };
  }

  abbrev pub forget_private_key : BirthOrchestrator Engine → BirthOrchestrator Engine
  forget_private_key o = record o { private_key_base64 = none }

module _ {Engine : Type 0} (platform : Platform Engine) where
  abbrev pub path_in : String → String → String
  path_in dir file = platform.join_path dir file

  -- `AppConfig::effective_agent_id`
  unfoldable pub effective_agent_id : Config → String
  effective_agent_id c = elim c.agent_id [
    | some id ↦ id
    | none ↦ or_text (platform.file_name c.data_dir) "default"
  ]

  abbrev pub restored : Option String → BirthStage
  restored none = BirthStage.darkness
  restored (some text) = elim (from_name text) [ none ↦ BirthStage.darkness | some t ↦ t ]

  -- The orchestrator at the start: at the stage of the configuration, or else at the first.
  abbrev pub fresh : Config → BirthOrchestrator Engine
  fresh c = record {
    config = c;
    agent_id = effective_agent_id c;
    stage = restored c.birth_stage;
    signing_key = none;
    private_key_base64 = none;
    conversation_history = [];
    genesis_path = none;
    crystallization_engine = none;
    mentor_name = none;
  }

  unfoldable pub new : Config → Run World (BirthOrchestrator Engine)
  unfolding fallible has_birth from_name
  new c = do
    fallible BirthError.store (λ w. w)
    born ← has_birth (effective_agent_id c)
    (if born then fail already_born else pure (fresh c))

  -- `generate_external_keypair`, up to the text of the private key
  unfoldable pub generate_external_keypair : String → Run World String
  unfolding fallible
  generate_external_keypair data_dir = do
    fallible io (λ w. record w { ticks = w.ticks + 1 })
    (λ w.
        write (path_in data_dir "external_pubkey.bin")
          (platform.public_key (platform.generate w.ticks)) w)
    (λ w. (ok (platform.encode (platform.generate w.ticks)), w))

  abbrev pub hold : List ℕ → String → Run (Birth Engine) Unit
  hold key text =
      if eqb (length key) 32
      then modify (λ o. record o { signing_key = some key; private_key_base64 = some text })
      else fail (BirthError.config "Invalid private key length")

  abbrev pub hold_decoded : String → Option (List ℕ) → Run (Birth Engine) Unit
  hold_decoded text none = fail (BirthError.config "Failed to decode private key")
  hold_decoded text (some key) = hold key text

  abbrev pub is_held : Option (List ℕ) → Bool
  is_held none = false
  is_held (some k) = true

  -- The part of `generate_identity` behind its early returns
  unfoldable pub make_key : Run (Birth Engine) Unit
  unfolding fallible generate_external_keypair save
  make_key = with_orchestrator λ o. do
    text ← outside (generate_external_keypair o.config.data_dir)
    hold_decoded text (platform.decode text)
    modify (point_to (path_in o.config.data_dir "external_pubkey.bin"))
    save
    outside (fallible io (λ w. w))

  unfoldable pub generate_identity : Run (Birth Engine) Unit
  unfolding make_key
  generate_identity = with_orchestrator λ o.
      if not (is_stage o.stage BirthStage.darkness)
      then pure tt
      else exists_file (path_in o.config.data_dir "external_pubkey.bin")
          λ generated. if generated && is_held o.signing_key then pure tt else make_key

  abbrev pub engine_for : GenesisPath → Option Engine → Option Engine
  engine_for (GenesisPath.soul_crystallization depth) e =
      some (platform.new_engine (depth_to_crystallization_depth depth))
  engine_for _ e = e

  unfoldable pub advance_to_genesis_with_path : GenesisPath → Run (Birth Engine) Unit
  unfolding enter depth_to_crystallization_depth
  advance_to_genesis_with_path path = with_orchestrator λ o.
      if is_stage o.stage BirthStage.connectivity
      then (modify (λ o. record o {
        genesis_path = some path;
        crystallization_engine = engine_for path o.crystallization_engine;
      })
          >> enter BirthStage.genesis)
      else pure tt

  -- A template that is written unless the file is there.
  abbrev pub write_missing : String → String → Run (Birth Engine) Unit
  write_missing path content =
      exists_file path λ there'. if there' then pure tt else outside (write path content)

  abbrev pub guard_stage : BirthStage → Run (Birth Engine) Unit
  guard_stage stage =
      with_orchestrator
        λ o. if is_stage o.stage stage then pure tt else fail (stage_guard (name o.stage))

  abbrev pub write_templates : String → Run (Birth Engine) Unit
  write_templates docs_dir = do
    write_missing (path_in docs_dir "ethics.md") platform.ethics_md
    write_missing (path_in docs_dir "instincts.md") platform.instincts_md

  unfoldable pub crystallize_soul : String → String → Run (Birth Engine) Unit
  unfolding fallible enter name
  crystallize_soul soul_content growth_content = with_orchestrator λ o. do
    guard_stage BirthStage.genesis
    outside (fallible io (λ w. w))
    outside (write (path_in o.config.docs_dir "soul.md") soul_content)
    outside (write (path_in o.config.docs_dir "growth.md") growth_content)
    write_templates o.config.docs_dir
    enter BirthStage.emergence

  abbrev pub write_json : String → Option String → Run (Birth Engine) Unit
  write_json path none = pure tt
  write_json path (some json) = outside (fallible io (λ w. w) >> write path json)

  unfoldable pub crystallize_from_manifest : SoulManifest → Run (Birth Engine) Unit
  unfolding fallible enter name
  crystallize_from_manifest m = with_orchestrator λ o. do
    guard_stage BirthStage.genesis
    outside (fallible io (λ w. w))
    outside (write (path_in o.config.docs_dir "soul.md") (m.soul_content ⧺ m.genesis_block))
    outside (write (path_in o.config.docs_dir "growth.md") m.growth_content)
    write_json (path_in o.config.docs_dir "soul.json") m.soul_json
    write_templates o.config.docs_dir
    modify (adopt m)
    enter BirthStage.emergence

  -- One document: it has to be there and readable; its signature goes beside it.
  abbrev pub sign_content : List ℕ → String → String → Option String → Run World Unit
  sign_content key docs_dir doc none = fail io
  sign_content key docs_dir doc (some content) =
      fallible io (λ w. w)
      >> (λ v. write (path_in docs_dir (doc ⧺ ".sig")) (platform.sign key doc content v.ticks) v)

  unfoldable pub sign_file : List ℕ → String → String → Run World Unit
  unfolding fallible
  sign_file key docs_dir doc w =
      sign_content key docs_dir doc (lookup (path_in docs_dir doc) w.files) w

  unfoldable pub sign_all : List ℕ → String → List String → Run World Unit
  unfolding sign_file
  sign_all key docs_dir [] = pure tt
  sign_all key docs_dir (doc ∷ docs) = sign_file key docs_dir doc >> sign_all key docs_dir docs

  abbrev pub sign_constitutional_documents : List ℕ → String → Run World Unit
  sign_constitutional_documents key docs_dir = sign_all key docs_dir constitution

  -- `self.signing_key.take()`
  abbrev pub take_key :
      {A : Type 0} → (Option (List ℕ) → Run (Birth Engine) A) → Run (Birth Engine) A
  take_key k =
      with_orchestrator λ o. (modify (λ o. record o { signing_key = none }) >> k o.signing_key)

  -- The birth memory and the completed configuration, at the end of both ways to complete a birth.
  unfoldable pub finish : Run (Birth Engine) Unit
  unfolding save record_birth
  finish = with_orchestrator λ o b.
      (let born_at = platform.now b.world.ticks in
          (do
            outside (record_birth o.agent_id (birth_text born_at))
            modify (completed born_at)
            save))
        b

  unfoldable pub refuse_born : Run (Birth Engine) Unit
  unfolding has_birth
  refuse_born =
      with_orchestrator
        λ o. do born ← outside (has_birth o.agent_id); (if born then fail already_born else pure tt)

  abbrev pub sign_with : String → Option (List ℕ) → Run (Birth Engine) Unit
  sign_with docs_dir none = fail no_signing_key
  sign_with docs_dir (some key) = outside (sign_constitutional_documents key docs_dir)

  unfoldable pub complete_emergence : Run (Birth Engine) Unit
  unfolding finish refuse_born sign_all name
  complete_emergence = with_orchestrator λ o. do
    guard_stage BirthStage.emergence
    take_key (sign_with o.config.docs_dir)
    modify forget_private_key
    refuse_born
    finish

  -- A failed signing is passed over.
  abbrev pub try_sign : List ℕ → String → Run (Birth Engine) Unit
  try_sign key docs_dir b =
      let (r, w) = sign_constitutional_documents key docs_dir b.world in
      (ok tt, record b { world = w })

  abbrev pub try_sign_with : String → Option (List ℕ) → Run (Birth Engine) Unit
  try_sign_with docs_dir none = pure tt
  try_sign_with docs_dir (some key) =
      exists_file (path_in docs_dir "soul.md")
        λ written. if written then try_sign key docs_dir else pure tt

  unfoldable pub complete_birth : Run (Birth Engine) Unit
  unfolding finish refuse_born sign_all
  complete_birth = with_orchestrator λ o. do
    refuse_born
    take_key (try_sign_with o.config.docs_dir)
    modify forget_private_key
    finish
