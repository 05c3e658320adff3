-- ===== src/Birth/Tests.antt =====
-- A platform and a life for the theorems on the birth.
use orion_dock.Prelude.{
  Elem, String, ◌≡◌, refl, ◌≢◌, true, false, none, some, [], ◌∷◌, replicate, ◌⧺◌, lookup, remove,
  insert,
}
use text.Mathlib.TextLemmas.{append_cancel_left}
use orion_dock.Birth.Stage.{GenesisPath, BirthStage, name}
use orion_dock.Birth.Machine.{Config, MemoryStore, ok, is_born}
use orion_dock.Birth.Orchestrator.{Platform, Birth, enter}
use orion_dock.Birth.Ceremony.{
  document_files, complete_emergence, complete_birth, fresh, new, effective_agent_id,
}
use orion_dock.Birth.Monotone.{Later}
use orion_dock.Birth.Lifetime.{Operation, live, live-Later}
use orion_dock.Birth.Completion.{Born, complete_emergence-Born}
use orion_dock.Birth.Key.{complete_emergence-drops_key}
use orion_dock.Birth.Once.{birth_once}
use orion_dock.Birth.Liveness.{ceremony, ceremony-completes}
use orion_dock.Birth.Restart.{enter-new}

-- A path keeps its directory apart by a slash; a file's name comes first, so that it can be read back.
abbrev pub test_platform : Platform (Unit {0})
test_platform = record {
  join_path = λ d f. d ⧺ f;
  file_name = λ d. some d;
  generate = λ n. replicate 32 n;
  public_key = λ k. "public";
  encode = λ k. "private";
  decode = λ t. some (replicate 32 0);
  sign = λ k doc content t. content ⧺ " signed";
  now = λ t. "now";
  new_engine = λ d. tt;
  ethics_md = "ethics";
  instincts_md = "instincts";
}

pub join_apart :
    (d x y : String)
    → Elem x document_files
    → Elem y document_files
    → test_platform.join_path d x ≡ test_platform.join_path d y
    → x ≡ y
join_apart d x y xd yd h = append_cancel_left d x y h

abbrev pub test_config : Config
test_config = record {
  data_dir = "data";
  docs_dir = "docs/";
  agent_id = some "agent";
  agent_name = none;
  birth_complete = false;
  birth_timestamp = none;
  birth_stage = some "Emergence";
  external_pubkey_path = none;
}

abbrev pub ready : Birth (Unit {0})
ready = record {
  orchestrator = record (fresh test_platform test_config) {
    stage = BirthStage.emergence;
    signing_key = some (1 ∷ []);
  };
  world = record {
    files =
        ("docs/soul.md", "soul")
        ∷ ("docs/ethics.md", "ethics")
        ∷ ("docs/instincts.md", "instincts")
        ∷ [];
    backend = MemoryStore.postgres;
    births = [];
    saved = none;
    faults = [];
    ticks = 0;
  };
}

abbrev alive : Birth (Unit {0})
alive = (complete_emergence test_platform ready).1

test_birth : complete_emergence test_platform ready ≡ (ok tt, alive)
unfolding complete_emergence lookup insert remove
test_birth = refl

complete_emergence-Born_example : Born test_platform ready alive
complete_emergence-Born_example =
    complete_emergence-Born test_platform join_apart ready alive test_birth

birth_once_example :
    (complete_emergence test_platform
        (live test_platform (Operation.skip ∷ Operation.give_key [] ∷ []) alive)
      ≢ (ok tt, alive))
    × (complete_birth test_platform
          (live test_platform (Operation.skip ∷ Operation.give_key [] ∷ []) alive)
        ≢ (ok tt, alive))
birth_once_example =
    birth_once test_platform join_apart ready alive (Operation.skip ∷ Operation.give_key [] ∷ [])
      test_birth alive

live-Later_example :
    Later ready (live test_platform (Operation.emerge ∷ Operation.legacy ∷ []) ready)
live-Later_example = live-Later test_platform (Operation.emerge ∷ Operation.legacy ∷ []) ready

complete_emergence-drops_key_example :
    (complete_emergence test_platform ready).1.orchestrator.signing_key ≡ none
complete_emergence-drops_key_example = complete_emergence-drops_key test_platform ready refl

abbrev at_genesis : Birth (Unit {0})
at_genesis = (enter BirthStage.genesis ready).1

abbrev genesis_config : Config
genesis_config = record test_config { birth_stage = some "Genesis" }

test_enter : enter BirthStage.genesis ready ≡ (ok tt, at_genesis)
unfolding enter
test_enter = refl

test_saved : at_genesis.world.saved ≡ some genesis_config
unfolding enter name
test_saved = refl

test_new :
    new test_platform genesis_config ready.world
    ≡ (ok (fresh test_platform genesis_config), ready.world)
unfolding new lookup
test_new = refl

enter-new_example :
    ((fresh test_platform genesis_config).stage ≡ BirthStage.genesis)
    × ((fresh test_platform genesis_config).signing_key ≡ none)
    × (is_born (effective_agent_id test_platform genesis_config) ready.world ≡ false)
enter-new_example =
    enter-new test_platform BirthStage.genesis ready at_genesis test_enter genesis_config
      ready.world ready.world (fresh test_platform genesis_config) test_saved test_new

-- An installation before the birth, whose keys are read back from their text.
abbrev unborn : Birth (Unit {0})
unborn = record {
  orchestrator = fresh test_platform (record test_config { birth_stage = none });
  world = record ready.world { files = [] };
}

abbrev zero_platform : Platform (Unit {0})
zero_platform = record test_platform { generate = λ n. replicate 32 0 }

test_unborn : is_born unborn.orchestrator.agent_id unborn.world ≡ false
unfolding lookup
test_unborn = refl

ceremony-completes_example :
    let after = ceremony zero_platform GenesisPath.direct "soul" "growth" unborn in
    (after.0 ≡ ok tt)
    × (after.1.orchestrator.config.birth_complete ≡ true)
    × (is_born after.1.orchestrator.agent_id after.1.world ≡ true)
ceremony-completes_example =
    ceremony-completes zero_platform (λ n. refl) (λ n. refl) GenesisPath.direct "soul" "growth"
      unborn refl refl test_unborn
