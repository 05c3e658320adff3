-- ===== src/Router/Clients.antt =====
-- crates/orion-router/src/router.rs: how a router is put together, its heartbeat and its status.
-- `Clients` are the constructors of the providers of crates/orion-capabilities, which do I/O.
use orion_dock.Prelude.{
  String, Bool, true, false, ◌||◌, Option, none, some, [], ◌∷◌, if◌then◌else◌, ◌==◌, empty_text,
  trim,
}
use mathlib.Core.Option
use orion_dock.Router.Provider.{Result, ok, err, CompletionResponse, LlmProvider, new, simple}
use orion_dock.Router.Routing.{EgoProvider, SuperegoL2Mode, RoutingMode, IdEgoRouter}

-- A client of a cloud provider takes a key and perhaps a model; a local one, a URL and a model, and
-- also has a heartbeat; `auto_model` asks the server for the model.
pub record Clients (Value W : Type 0) : Type 0 where
  pub cloud : EgoProvider → String → Option String → LlmProvider Value W
  pub local : String → String → LlmProvider Value W × (W → Result Unit × W)
  pub auto_model : String → W → (LlmProvider Value W × (W → Result Unit × W)) × W
  pub candle : LlmProvider Value W
  pub stub_heartbeat : W → Result Unit × W

-- `filter(|s| !s.is_empty())`
abbrev pub non_empty : Option String → Option String
non_empty none = none
non_empty (some s) = if empty_text s then none else some s

-- The `Display` of a cloud provider.
abbrev pub ego_name : EgoProvider → String
ego_name EgoProvider.openai = "openai"
ego_name EgoProvider.anthropic = "anthropic"
ego_name EgoProvider.perplexity = "perplexity"
ego_name EgoProvider.xai = "xai"
ego_name EgoProvider.google = "google"

-- Any other name, and none, is OpenAI's.
unfoldable pub ego_kind : Option String → EgoProvider
ego_kind none = EgoProvider.openai
ego_kind (some name) =
    if name == "anthropic"
    then EgoProvider.anthropic
    else if name == "perplexity" || name == "pplx"
    then EgoProvider.perplexity
    else if name == "xai" || name == "grok"
    then EgoProvider.xai
    else if name == "google" || name == "gemini"
    then EgoProvider.google
    else EgoProvider.openai

pub record RouterStatusInfo : Type 0 where
  pub has_local_http : Bool
  pub has_ego : Bool
  pub ego_provider : Option String
  pub has_superego : Bool

abbrev pub is_some : {A : Type 0} → Option A → Bool
is_some none = false
is_some (some a) = true

module _ {Value W : Type 0} where
  abbrev pub has_ego : IdEgoRouter Value W → Bool
  has_ego router = is_some router.ego

  abbrev pub ego_available_for_agentic : IdEgoRouter Value W → Bool
  ego_available_for_agentic router = is_some router.ego

  abbrev pub has_superego : IdEgoRouter Value W → Bool
  has_superego router = is_some router.superego

  abbrev pub is_using_http_provider : IdEgoRouter Value W → Bool
  is_using_http_provider router = is_some router.local_http

  abbrev pub status : IdEgoRouter Value W → RouterStatusInfo
  status router = record {
    has_local_http = is_some router.local_http;
    has_ego = is_some router.ego;
    ego_provider = Option.map ego_name router.ego_provider;
    has_superego = is_some router.superego;
  }

  abbrev pub with_superego : IdEgoRouter Value W → LlmProvider Value W → IdEgoRouter Value W
  with_superego router provider = record router {
    superego = some provider;
    superego_mode = SuperegoL2Mode.enforce;
    superego_provider_name = some "configured";
  }

  abbrev pub with_superego_config :
      IdEgoRouter Value W
      → LlmProvider Value W
      → Option String
      → SuperegoL2Mode
      → IdEgoRouter Value W
  with_superego_config router provider provider_name mode = record router {
    superego = some provider;
    superego_provider_name = provider_name;
    superego_mode = mode;
  }

  -- A router without the second layer.
  abbrev pub assembled :
      Option (LlmProvider Value W) × Option EgoProvider
      → LlmProvider Value W × Option (W → Result Unit × W)
      → RoutingMode
      → IdEgoRouter Value W
  assembled (ego, ego_provider) (id, local_http) mode = record {
    id = id;
    ego = ego;
    ego_provider = ego_provider;
    superego = none;
    superego_provider_name = none;
    superego_mode = SuperegoL2Mode.off;
    local_http = local_http;
    mode = mode;
  }

module _ {Value W : Type 0} (clients : Clients Value W) where
  unfoldable pub build_ego_provider :
      Option String
      → Option String
      → Option String
      → Option (LlmProvider Value W) × Option EgoProvider
  unfolding ego_kind trim
  build_ego_provider provider_name api_key model_override = elim (non_empty api_key) [
    | none ↦ (none, none)
    | some key ↦ (
      some
          (clients.cloud (ego_kind provider_name) key (non_empty (Option.map trim model_override))),
      some (ego_kind provider_name),
    )
  ]

  abbrev pub or_default_model : Option String → String
  or_default_model none = "local-model"
  or_default_model (some model) = model

  abbrev pub with_heartbeat :
      LlmProvider Value W × (W → Result Unit × W)
      → LlmProvider Value W × Option (W → Result Unit × W)
  with_heartbeat (provider, heartbeat) = (provider, some heartbeat)

  unfoldable pub build_id_provider :
      Option String → Option String → LlmProvider Value W × Option (W → Result Unit × W)
  build_id_provider local_llm_base_url id_model = elim (non_empty local_llm_base_url) [
    | none ↦ (clients.candle, none)
    | some url ↦ with_heartbeat (clients.local url (or_default_model id_model))
  ]

  abbrev pub detected :
      String → Option String → W → (LlmProvider Value W × Option (W → Result Unit × W)) × W
  detected url (some model) w = (with_heartbeat (clients.local url model), w)
  detected url none w = let (found, w') = clients.auto_model url w in (with_heartbeat found, w')

  unfoldable pub build_id_provider_auto_detect :
      Option String → Option String → W → (LlmProvider Value W × Option (W → Result Unit × W)) × W
  build_id_provider_auto_detect local_llm_base_url id_model w =
      elim (non_empty local_llm_base_url) [
        | none ↦ ((clients.candle, none), w)
        | some url ↦ detected url id_model w
      ]

  -- `new` and `with_provider`
  unfoldable pub with_provider :
      Option String → Option String → Option String → RoutingMode → IdEgoRouter Value W
  unfolding build_ego_provider build_id_provider
  with_provider local_llm_base_url ego_provider_name ego_api_key mode =
      assembled (build_ego_provider ego_provider_name ego_api_key none)
        (build_id_provider local_llm_base_url none) mode

  unfoldable pub with_id_model :
      Option String
      → Option String
      → Option String
      → Option String
      → RoutingMode
      → IdEgoRouter Value W
  unfolding build_ego_provider build_id_provider
  with_id_model local_llm_base_url id_model ego_provider_name ego_api_key mode =
      assembled (build_ego_provider ego_provider_name ego_api_key none)
        (build_id_provider local_llm_base_url id_model) mode

  unfoldable pub with_provider_auto_detect_and_id_model :
      Option String
      → Option String
      → Option String
      → Option String
      → Option String
      → RoutingMode
      → W
      → IdEgoRouter Value W × W
  unfolding build_ego_provider build_id_provider_auto_detect
  with_provider_auto_detect_and_id_model local_llm_base_url id_model ego_provider_name ego_api_key
        ego_model mode w =
      let (id, w') = build_id_provider_auto_detect local_llm_base_url id_model w in
      (assembled (build_ego_provider ego_provider_name ego_api_key ego_model) id mode, w')

  abbrev pub with_provider_auto_detect :
      Option String
      → Option String
      → Option String
      → Option String
      → RoutingMode
      → W
      → IdEgoRouter Value W × W
  with_provider_auto_detect local_llm_base_url ego_provider_name ego_api_key ego_model mode w =
      with_provider_auto_detect_and_id_model local_llm_base_url none ego_provider_name ego_api_key
        ego_model mode w

  abbrev pub new_auto_detect :
      Option String → Option String → Option String → RoutingMode → W → IdEgoRouter Value W × W
  new_auto_detect local_llm_base_url ego_provider_name ego_api_key mode w =
      with_provider_auto_detect local_llm_base_url ego_provider_name ego_api_key none mode w

  abbrev pub id_heartbeat : IdEgoRouter Value W → W → Result Unit × W
  id_heartbeat router w = elim (router.local_http) [
    | none ↦ clients.stub_heartbeat w
    | some heartbeat ↦ heartbeat w
  ]

  -- Ego's answer to a ping in the place of Id's failure
  abbrev pub pinged : String → Result CompletionResponse × W → Result Unit × W
  pinged e (ok response, w) = (ok tt, w)
  pinged e (err e', w) = (err e, w)

  abbrev pub or_ping : IdEgoRouter Value W → Result Unit × W → Result Unit × W
  or_ping router (ok done, w) = (ok tt, w)
  or_ping router (err e, w) = elim (router.ego) [
    | none ↦ (err e, w)
    | some ego ↦ pinged e (ego.complete (simple (new "user" "heartbeat" ∷ [])) w)
  ]

  unfoldable pub heartbeat : IdEgoRouter Value W → W → Result Unit × W
  heartbeat router w = or_ping router (id_heartbeat router w)
