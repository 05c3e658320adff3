-- ===== src/Birth/Signing.antt =====
-- The signing and the end of a birth in crates/orion-birth/src/stages.rs when nothing outside fails.
use orion_dock.Birth.Documents.{guarded-Holding, Ready, Holding}
use orion_dock.Prelude.{
  ℕ, String, ◌≡◌, refl, sym, ap, ◌∙◌, subst, true, false, Option, none, some, List, [], ◌∷◌, arith,
  insert, lookup-insert, eq_refl, All, ◌⧺◌, Elem, elem-All, All-mono,
}
use orion_dock.Birth.Stage.{BirthStage}
use orion_dock.Birth.Machine.{
  record_birth, birth_row, has_birth, World, ok, fallible, is_born, exists,
}
use orion_dock.Birth.Orchestrator.{Platform, Birth, modify}
use orion_dock.Birth.Ceremony.{
  path_in, is_held, take_key, sign_with, constitution, forget_private_key, refuse_born,
  sign_content, sign_all, birth_text, sign_file, finish, path_in, complete_emergence,
}
use orion_dock.Birth.Success.{◌⨾◌, exists-kept, exists-lookup, and_then-done, Succeeds, Calm}

module _ {Engine : Type 0} (platform : Platform Engine) where
  -- The same of the world, as far as the signing depends on it.
  abbrev pub Signable : String → String → List String → World → Type 0
  Signable agent_id dir docs w =
      (w.faults ≡ [])
      × (is_born agent_id w ≡ false)
      × All (λ doc. exists (path_in platform dir doc) w ≡ true) docs

  -- One document is signed, while the documents that are there stay.
  sign_content-eq :
      (key : List ℕ) (dir doc content : String) (w : World)
      → w.faults ≡ []
      → sign_content platform key dir doc (some content) w ≡ (
        ok tt,
        record w {
          faults = [];
          files =
              insert
                (path_in platform dir (doc ⧺ ".sig"))
                (platform.sign key doc content w.ticks)
                w.files;
        },
      )
  unfolding fallible
  sign_content-eq key dir doc content w quiet =
      subst
        (λ v. sign_content platform key dir doc (some content) v ≡ (
          ok tt,
          record w {
            faults = [];
            files =
                insert (path_in platform dir (doc ⧺ ".sig")) (platform.sign key doc content w.ticks)
                  w.files;
          },
        ))
        (ap (λ f. record w { faults = f }) (sym quiet)) refl

  sign_file-Signable :
      (key : List ℕ) (agent_id dir doc : String) (docs : List String) (w : World)
      → Elem doc docs
      → Signable agent_id dir docs w
      → ((sign_file platform key dir doc w).0 ≡ ok tt)
        × Signable agent_id dir docs (sign_file platform key dir doc w).1
  unfolding sign_file
  sign_file-Signable key agent_id dir doc docs w member (quiet, unborn, found) =
      let (content, here) =
        exists-lookup (path_in platform dir doc) w
          (elem-All (λ d. exists (path_in platform dir d) w ≡ true) member found) in
      let signature = platform.sign key doc content w.ticks in
      let path = path_in platform dir (doc ⧺ ".sig") in
      subst (λ r. (r.0 ≡ ok tt) × Signable agent_id dir docs r.1)
        (sym (
          ap (λ c. sign_content platform key dir doc c w) here
          ∙ sign_content-eq key dir doc content w quiet))
        (
          refl,
          (
            refl,
            unborn,
            All-mono (λ d. exists (path_in platform dir d) w ≡ true)
                (λ d.
                  exists (path_in platform dir d)
                    (record w { files = insert path signature w.files })
                  ≡ true)
                docs (λ d there. exists-kept (path_in platform dir d) path signature w there) found,
          ),
        )

  sign_all-Signable :
      (key : List ℕ) (agent_id dir : String) (signed docs : List String) (w : World)
      → All (λ doc. Elem doc docs) signed
      → Signable agent_id dir docs w
      → ((sign_all platform key dir signed w).0 ≡ ok tt)
        × Signable agent_id dir docs (sign_all platform key dir signed w).1
  unfolding sign_all
  sign_all-Signable key agent_id dir [] docs w members h = (refl, h)
  sign_all-Signable key agent_id dir (doc ∷ signed) docs w (member, members) h =
      let (good, h') = sign_file-Signable key agent_id dir doc docs w member h in
      subst (λ r. (r.0 ≡ ok tt) × Signable agent_id dir docs r.1)
        (sym (
          and_then-done (sign_file platform key dir doc w) (sign_all platform key dir signed) good))
        (sign_all-Signable key agent_id dir signed docs _ members h')

  -- The birth is recorded, in the store and in the configuration.
  abbrev pub Done : Birth Engine → Type 0
  Done b =
      (b.orchestrator.config.birth_complete ≡ true)
      × (is_born b.orchestrator.agent_id b.world ≡ true)

  finish-Done : Succeeds (Calm BirthStage.emergence) (finish platform) Done
  unfolding finish record_birth
  finish-Done = record {
    run = λ b h.
        let row = birth_row b.world.backend b.orchestrator.agent_id in
        ground (
          arith,
          lookup-insert row row (birth_text (platform.now b.world.ticks)) b.world.births,
          eq_refl row,
        );
  }

  held-key : (k : Option (List ℕ)) → is_held platform k ≡ true → (key : List ℕ) × (k ≡ some key)
  held-key none h = cc
  held-key (some key) h = (key, refl)

  abbrev pub written_docs : List String
  written_docs = "instincts.md" ∷ "ethics.md" ∷ "growth.md" ∷ "soul.md" ∷ []

  signed-Calm :
      (dir : String)
      → Succeeds
          (Holding platform BirthStage.emergence dir written_docs)
          (take_key platform (sign_with platform dir))
          (Calm BirthStage.emergence)
  signed-Calm dir = record {
    run = λ b (((quiet, at, unborn), keyed), here, found).
        let (key, held) = held-key b.orchestrator.signing_key keyed in
        let dropped : Birth Engine = record b {
          orchestrator = record b.orchestrator { signing_key = none };
        } in
        let (good, (quiet', unborn', found')) =
          sign_all-Signable key b.orchestrator.agent_id dir constitution written_docs b.world
            (
              Elem.there (Elem.there (Elem.there Elem.here)),
              (Elem.there Elem.here, (Elem.here, tt)),
            )
            (quiet, unborn, found) in
        subst
          (λ k.
            ((sign_with platform dir k dropped).0 ≡ ok tt)
            × Calm BirthStage.emergence (sign_with platform dir k dropped).1)
          (sym held) (good, (quiet', at, unborn'));
  }

  forgotten-Calm :
      Succeeds {Engine = Engine}
        (Calm BirthStage.emergence)
        (modify forget_private_key)
        (Calm BirthStage.emergence)
  forgotten-Calm = record { run = λ b h. (refl, h) }

  refused-Calm :
      Succeeds (Calm BirthStage.emergence) (refuse_born platform) (Calm BirthStage.emergence)
  unfolding refuse_born has_birth
  refused-Calm = record { run = λ b h. ground arith }

  pub complete_emergence-Done : Succeeds (Ready platform) (complete_emergence platform) Done
  unfolding complete_emergence
  complete_emergence-Done = record {
    run = λ b (dir, (keyed, here, found)).
        let own = b.orchestrator.config.docs_dir in
        (guarded-Holding platform BirthStage.emergence own written_docs
            ⨾ signed-Calm own
            ⨾ forgotten-Calm
            ⨾ refused-Calm
            ⨾ finish-Done).run
          b
          (subst (λ d. Holding platform BirthStage.emergence d written_docs b) (sym here)
            (keyed, here, found));
  }
