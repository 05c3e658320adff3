-- ===== src/Birth/Orchestrator.antt =====
-- `BirthOrchestrator` of crates/orion-birth/src/stages.rs with the operations that neither write
-- documents nor use the signing key's bytes.
use orion_dock.Prelude.{
  ℕ, String, Bool, Option, none, some, List, [], ◌∷◌, ◌++◌, eqb, if◌then◌else◌, length,
}
use orion_dock.Birth.Stage.{BirthStage, name, is_stage, GenesisPath, DepthLevel}
use orion_dock.Birth.Machine.{
  BirthError, Config, World, Run, ◌>>◌, pure, fail, fallible, exists, io, ok,
}

-- What the crates' dependencies provide: paths, cryptography, base64, the clock and the templates.
-- `Engine` is the state of the crystallization dialogue.
pub record Platform (Engine : Type 0) : Type 0 where
  pub join_path : String → String → String
  pub file_name : String → Option String
  pub generate : ℕ → List ℕ
  pub public_key : List ℕ → String
  pub encode : List ℕ → String
  pub decode : String → Option (List ℕ)
  pub sign : (key : List ℕ) (doc_name content : String) (ticks : ℕ) → String
  pub now : ℕ → String
  pub new_engine : DepthLevel → Engine
  pub ethics_md : String
  pub instincts_md : String

pub record BirthOrchestrator (Engine : Type 0) : Type 0 where
  pub config : Config
  pub agent_id : String
  pub stage : BirthStage
  pub signing_key : Option (List ℕ)
  pub private_key_base64 : Option String
  pub conversation_history : List (String × String)
  pub genesis_path : Option GenesisPath
  pub crystallization_engine : Option Engine
  pub mentor_name : Option String

pub record Birth (Engine : Type 0) : Type 0 where
  pub orchestrator : BirthOrchestrator Engine
  pub world : World

abbrev pub path_or_direct : Option GenesisPath → GenesisPath
path_or_direct none = GenesisPath.direct
path_or_direct (some p) = p

module _ {Engine : Type 0} where
  abbrev pub outside : {A : Type 0} → Run World A → Run (Birth Engine) A
  outside m b = let (r, w) = m b.world in (r, record b { world = w })

  abbrev pub modify :
      (BirthOrchestrator Engine → BirthOrchestrator Engine) → Run (Birth Engine) Unit
  modify f b = (ok tt, record b { orchestrator = f b.orchestrator })

  abbrev pub with_orchestrator :
      {A : Type 0} → (BirthOrchestrator Engine → Run (Birth Engine) A) → Run (Birth Engine) A
  with_orchestrator k b = k b.orchestrator b

  abbrev pub exists_file :
      {A : Type 0} → String → (Bool → Run (Birth Engine) A) → Run (Birth Engine) A
  exists_file path k b = k (exists path b.world) b

  -- `self.config.save(&self.config.config_path())`
  unfoldable pub save : Run (Birth Engine) Unit
  unfolding fallible
  save = with_orchestrator λ o. outside (fallible io (λ w. record w { saved = some o.config }))

  unfoldable pub persist_stage : Run (Birth Engine) Unit
  unfolding save
  persist_stage = do
    modify (λ o. record o { config = record o.config { birth_stage = some (name o.stage) } })
    save

  unfoldable pub enter : BirthStage → Run (Birth Engine) Unit
  unfolding persist_stage
  enter stage = do modify (λ o. record o { stage = stage }); persist_stage

  unfoldable pub advance_past_darkness : Run (Birth Engine) Unit
  unfolding enter
  advance_past_darkness =
      with_orchestrator
        λ o. if is_stage o.stage BirthStage.darkness then enter BirthStage.ignition else pure tt

  unfoldable pub advance_to_connectivity : Run (Birth Engine) Unit
  unfolding enter
  advance_to_connectivity =
      with_orchestrator
        λ o. if is_stage o.stage BirthStage.ignition then enter BirthStage.connectivity else pure tt

  unfoldable pub advance_to_genesis : Run (Birth Engine) Unit
  unfolding enter
  advance_to_genesis = with_orchestrator λ o.
      if is_stage o.stage BirthStage.connectivity
      then (modify (λ o. record o { genesis_path = some (path_or_direct o.genesis_path) })
          >> enter BirthStage.genesis)
      else pure tt

  unfoldable pub set_genesis_path : GenesisPath → Run (Birth Engine) Unit
  set_genesis_path path = modify (λ o. record o { genesis_path = some path })

  unfoldable pub add_message : String → String → Run (Birth Engine) Unit
  add_message role content =
      modify
        (λ o. record o { conversation_history = o.conversation_history ++ (role, content) ∷ [] })

  unfoldable pub clear_conversation : Run (Birth Engine) Unit
  clear_conversation = modify (λ o. record o { conversation_history = [] })

  unfoldable pub skip_to_emergence : Run (Birth Engine) Unit
  skip_to_emergence = modify (λ o. record o { stage = BirthStage.emergence })

  unfoldable pub set_signing_key_bytes : List ℕ → Run (Birth Engine) Unit
  set_signing_key_bytes bytes =
      if eqb (length bytes) 32
      then modify (λ o. record o { signing_key = some bytes })
      else fail (BirthError.config "Invalid signing key length")

  unfoldable pub take_signing_key_bytes : Run (Birth Engine) (Option (List ℕ))
  take_signing_key_bytes =
      with_orchestrator λ o. (modify (λ o. record o { signing_key = none }) >> pure o.signing_key)

  unfoldable pub set_mentor_name : String → Run (Birth Engine) Unit
  set_mentor_name mentor = modify (λ o. record o { mentor_name = some mentor })

  unfoldable pub mentor_name : BirthOrchestrator Engine → String
  mentor_name o = elim o.mentor_name [ none ↦ "Mentor" | some m ↦ m ]
