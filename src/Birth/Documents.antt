-- ===== src/Birth/Documents.antt =====
-- The documents of a birth in crates/orion-birth/src/stages.rs, up to its last stage.
use orion_dock.Prelude.{
  String, ◌≡◌, refl, sym, subst, Bool, true, false, some, List, [], ◌∷◌, if◌then◌else◌, insert, All,
  All-mono,
}
use orion_dock.Birth.Stage.{BirthStage, name}
use orion_dock.Birth.Machine.{Result, pure, io, Run, ok, fallible, exists, write}
use orion_dock.Birth.Orchestrator.{Platform, BirthOrchestrator, Birth, outside, enter}
use orion_dock.Birth.Ceremony.{
  path_in, is_held, path_in, write_missing, guard_stage, crystallize_soul,
}
use orion_dock.Birth.Success.{
  ◌⨾◌, exists-kept, exists-written, is_stage_refl, fallible-quiet, Succeeds, Calm,
}

module _ {Engine : Type 0} (platform : Platform Engine) where
  -- A signing key is held as well.
  abbrev pub Keyed : BirthStage → Birth Engine → Type 0
  Keyed stage b = Calm stage b × (is_held platform b.orchestrator.signing_key ≡ true)

  -- These documents are there.
  abbrev pub Holding : BirthStage → String → List String → Birth Engine → Type 0
  Holding stage dir docs b =
      Keyed stage b
      × (b.orchestrator.config.docs_dir ≡ dir)
      × All (λ doc. exists (path_in platform dir doc) b.world ≡ true) docs

  written-Holding :
      (dir doc content : String) (docs : List String)
      → Succeeds
          (Holding BirthStage.genesis dir docs)
          (outside (write (path_in platform dir doc) content))
          (Holding BirthStage.genesis dir (doc ∷ docs))
  written-Holding dir doc content docs = record {
    run = λ b (((quiet, at, unborn), keyed), here, found).
        let path = path_in platform dir doc in
        let w = record b.world { faults = [] } in
        subst
          (λ r.
            (r.0 ≡ ok tt) × Holding BirthStage.genesis dir (doc ∷ docs) (record b { world = r.1 }))
          (sym (fallible-quiet io _ b.world quiet))
          (
            refl,
            (
              ((refl, at, unborn), keyed),
              here,
              (
                exists-written path content w,
                All-mono (λ d. exists (path_in platform dir d) w ≡ true)
                    (λ d.
                      exists (path_in platform dir d)
                        (record w { files = insert path content w.files })
                      ≡ true)
                    docs (λ d there. exists-kept (path_in platform dir d) path content w there)
                    found,
              ),
            ),
          );
  }

  missing-branch :
      (dir doc content : String) (docs : List String) (b : Birth Engine) (there : Bool)
      → exists (path_in platform dir doc) b.world ≡ there
      → Holding BirthStage.genesis dir docs b
      → let after : Result Unit × Birth Engine =
          (if◌then◌else◌ {A = Run (Birth Engine) Unit} there
              (pure tt)
              (outside (write (path_in platform dir doc) content)))
            b in
        (after.0 ≡ ok tt) × Holding BirthStage.genesis dir (doc ∷ docs) after.1
  missing-branch dir doc content docs b true e (keyed, here, found) =
      (refl, (keyed, here, (e, found)))
  missing-branch dir doc content docs b false e h = (written-Holding dir doc content docs).run b h

  missing-Holding :
      (dir doc content : String) (docs : List String)
      → Succeeds
          (Holding BirthStage.genesis dir docs)
          (write_missing platform (path_in platform dir doc) content)
          (Holding BirthStage.genesis dir (doc ∷ docs))
  missing-Holding dir doc content docs = record {
    run = λ b h. missing-branch dir doc content docs b _ refl h;
  }

  tried-Holding :
      (dir : String) (docs : List String)
      → Succeeds
          (Holding BirthStage.genesis dir docs)
          (outside (fallible io (λ w. w)))
          (Holding BirthStage.genesis dir docs)
  tried-Holding dir docs = record {
    run = λ b (((quiet, at, unborn), keyed), here, found).
        subst (λ r. (r.0 ≡ ok tt) × Holding BirthStage.genesis dir docs (record b { world = r.1 }))
          (sym (fallible-quiet io (λ w. w) b.world quiet))
          (refl, (((refl, at, unborn), keyed), here, found));
  }

  pub guarded-Holding :
      (stage : BirthStage) (dir : String) (docs : List String)
      → Succeeds (Holding stage dir docs) (guard_stage platform stage) (Holding stage dir docs)
  guarded-Holding stage dir docs = record {
    run = λ b (((quiet, at, unborn), keyed), here, found).
        rw (at, is_stage_refl stage) (refl, (((quiet, refl, unborn), keyed), here, found));
  }

  abbrev pub at_emergence : BirthOrchestrator Engine → BirthOrchestrator Engine
  at_emergence o = record o {
    stage = BirthStage.emergence;
    config = record o.config { birth_stage = some (name BirthStage.emergence) };
  }

  entered-Holding :
      (dir : String) (docs : List String)
      → Succeeds
          (Holding BirthStage.genesis dir docs)
          (enter BirthStage.emergence)
          (Holding BirthStage.emergence dir docs)
  unfolding enter
  entered-Holding dir docs = record {
    run = λ b (((quiet, at, unborn), keyed), here, found).
        subst
          (λ r.
            (r.0 ≡ ok tt)
            × Holding BirthStage.emergence dir docs
                (record { orchestrator = at_emergence b.orchestrator; world = r.1 }))
          (sym (
            fallible-quiet io (λ w. record w { saved = some (at_emergence b.orchestrator).config })
              b.world quiet))
          (refl, (((refl, refl, unborn), keyed), here, found));
  }

  -- At the last stage, with the documents that are signed there.
  abbrev pub Ready : Birth Engine → Type 0
  Ready b =
      (dir : String) × Holding BirthStage.emergence dir
        ("instincts.md" ∷ "ethics.md" ∷ "growth.md" ∷ "soul.md" ∷ []) b

  pub crystallize_soul-Ready :
      (soul_content growth_content : String)
      → Succeeds
          (Keyed BirthStage.genesis)
          (crystallize_soul platform soul_content growth_content)
          Ready
  unfolding crystallize_soul
  crystallize_soul-Ready soul_content growth_content = record {
    run = λ b h.
        let dir = b.orchestrator.config.docs_dir in
        let (good, ready) =
          (guarded-Holding BirthStage.genesis dir []
              ⨾ tried-Holding dir []
              ⨾ written-Holding dir "soul.md" soul_content []
              ⨾ written-Holding dir "growth.md" growth_content ("soul.md" ∷ [])
              ⨾ (missing-Holding dir "ethics.md" platform.ethics_md ("growth.md" ∷ "soul.md" ∷ [])
                  ⨾ missing-Holding dir "instincts.md" platform.instincts_md
                      ("ethics.md" ∷ "growth.md" ∷ "soul.md" ∷ []))
              ⨾ entered-Holding dir
                  ("instincts.md" ∷ "ethics.md" ∷ "growth.md" ∷ "soul.md" ∷ [])).run
            b (h, refl, tt) in
        (good, (dir, ready));
  }
