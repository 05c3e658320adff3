-- ===== src/Birth/Completion.antt =====
-- `complete_emergence` of crates/orion-birth/src/stages.rs when it succeeds.
use orion_dock.Prelude.{
  Elem, ℕ, String, ◌≡◌, refl, sym, ap, ◌∙◌, subst, true, false, Option, none, some, List, All,
  All-mono, ◌⧺◌, lookup, insert,
}
use orion_dock.Birth.Stage.{BirthStage, name, is_stage}
use orion_dock.Birth.Machine.{BirthError, World, ◌>>◌, is_born, birth_row, ok}
use orion_dock.Birth.Orchestrator.{Platform, Birth, modify}
use orion_dock.Birth.Ceremony.{
  document_files, path_in, sign_all, finish, refuse_born, complete_emergence, constitution,
  guard_stage, take_key, sign_with, completed, forget_private_key, birth_text,
}
use orion_dock.Birth.Forward.{is_stage_iff}
use orion_dock.Birth.Emergence.{
  and_then-ok, passed-ok, outside-ok, refuse_born-ok, finish-ok, Signed, sign_constitution-ok,
}

-- The birth that `b'` has and `b` had not.
pub record Born {Engine : Type 0} (platform : Platform Engine) (b b' : Birth Engine) : Type 0 where
  pub at_emergence : b.orchestrator.stage ≡ BirthStage.emergence
  pub key : List ℕ
  pub held : b.orchestrator.signing_key ≡ some key
  pub dropped : b'.orchestrator.signing_key ≡ none
  pub forgotten : b'.orchestrator.private_key_base64 ≡ none
  pub signed :
      All (Signed platform key b.orchestrator.config.docs_dir b.world b'.world) constitution
  pub unborn : is_born b.orchestrator.agent_id b.world ≡ false
  pub recorded :
      b'.world.births
      ≡ insert
          (birth_row b.world.backend b.orchestrator.agent_id)
          (birth_text (platform.now b.world.ticks))
          b.world.births
  pub saved : b'.world.saved ≡ some b'.orchestrator.config
  pub complete : b'.orchestrator.config.birth_complete ≡ true
  pub no_stage : b'.orchestrator.config.birth_stage ≡ none

same_row :
    (id : String) (w u : World) (n m : String)
    → w.births ≡ u.births
    → w.backend ≡ u.backend
    → n ≡ m
    → (is_born id w ≡ is_born id u)
      × (insert (birth_row w.backend id) (birth_text n) w.births
          ≡ insert (birth_row u.backend id) (birth_text m) u.births)
same_row id w u n m e f g = (rw (e, f, is_born) refl, rw (e, f, g) refl)

module _ {Engine : Type 0} (platform : Platform Engine) where
  guard_stage-ok :
      (stage : BirthStage) (b b' : Birth Engine)
      → guard_stage platform stage b ≡ (ok tt, b')
      → (b.orchestrator.stage ≡ stage) × (b' ≡ b)
  guard_stage-ok stage b b' h =
      let (right, same) =
        passed-ok (is_stage b.orchestrator.stage stage)
          (BirthError.stage_guard (name b.orchestrator.stage)) b b' h in
      (is_stage_iff _ _ right, same)

  sign_with-ok :
      (docs : String) (o : Option (List ℕ)) (b b' : Birth Engine)
      → sign_with platform docs o b ≡ (ok tt, b')
      → (key : List ℕ) × (v : World) × (o ≡ some key)
        × (sign_all platform key docs constitution b.world ≡ (ok tt, v))
        × (b' ≡ record b { world = v })
  sign_with-ok docs none b b' h = let e = ap (λ p. p.0) h in cc
  sign_with-ok docs (some key) b b' h =
      let (v, ran, after) = outside-ok (sign_all platform key docs constitution) b b' tt h in
      (key, v, refl, ran, after)

  -- When joining paths keeps the names of the three documents and of their signatures apart, an emergence
  -- that succeeds was asked for at its stage with a key in memory, has signed the three documents with it
  -- and left their texts as they were, recorded the birth that was not there, saved the configuration,
  -- complete and without a stage, and dropped the key and its text.
  pub complete_emergence-Born :
      (join_apart : (d x y : String)
        → Elem x document_files
        → Elem y document_files
        → platform.join_path d x ≡ platform.join_path d y
        → x ≡ y)
      (b b' : Birth Engine)
      → complete_emergence platform b ≡ (ok tt, b')
      → Born platform b b'
  unfolding complete_emergence
  complete_emergence-Born join_apart b b' h =
      let docs = b.orchestrator.config.docs_dir in
      let (a0, b1, guarded, rest1) =
        and_then-ok (guard_stage platform BirthStage.emergence b) _ tt b' h in
      let (at_stage, b1_is) = guard_stage-ok BirthStage.emergence b b1 guarded in
      let rest1' =
        subst
          (λ c.
            (take_key platform (sign_with platform docs)
                >> (modify forget_private_key >> (refuse_born platform >> finish platform)))
              c
            ≡ (ok tt, b'))
          b1_is rest1 in
      let b2 : Birth Engine = record b {
        orchestrator = record b.orchestrator { signing_key = none };
      } in
      let (a1, b3, signing, rest2) =
        and_then-ok (sign_with platform docs b.orchestrator.signing_key b2) _ tt b' rest1' in
      let (key, v, held, ran, b3_is) = sign_with-ok docs b.orchestrator.signing_key b2 b3 signing in
      let (signed, same_births, same_backend, same_ticks) =
        sign_constitution-ok platform join_apart key docs b.world v ran in
      let b4 : Birth Engine = record b2 {
        orchestrator = forget_private_key b2.orchestrator;
        world = v;
      } in
      let rest3 =
        subst
          (λ c.
            (modify forget_private_key >> (refuse_born platform >> finish platform)) c
            ≡ (ok tt, b'))
          b3_is rest2 in
      let (a2, b5, refused, rest4) = and_then-ok (refuse_born platform b4) _ tt b' rest3 in
      let (unborn, b5_is) = refuse_born-ok platform b4 b5 refused in
      let (unborn', orch, files, births, saved) = finish-ok platform b5 b' rest4 in
      let orch' = orch ∙ ap (λ d. completed (platform.now d.world.ticks) d.orchestrator) b5_is in
      let files' = files ∙ ap (λ d. d.world.files) b5_is in
      let births' =
        births
        ∙ ap
            (λ d.
              insert (birth_row d.world.backend d.orchestrator.agent_id)
                (birth_text (platform.now d.world.ticks)) d.world.births)
            b5_is in
      let rows =
        same_row b.orchestrator.agent_id v b.world _ _ same_births same_backend
          (ap platform.now same_ticks) in
      record {
        at_emergence = at_stage;
        key = key;
        held = held;
        dropped = ap (λ o. o.signing_key) orch';
        forgotten = ap (λ o. o.private_key_base64) orch';
        signed =
            All-mono (Signed platform key docs b.world v)
              (Signed platform key docs b.world b'.world) constitution
              (λ doc s. (
                s.0,
                s.1,
                s.2,
                ap (lookup (path_in platform docs doc)) files' ∙ s.3,
                ap (lookup (path_in platform docs (doc ⧺ ".sig"))) files' ∙ s.4,
              ))
              signed;
        unborn = sym rows.0 ∙ unborn;
        recorded = births' ∙ rows.1;
        saved = saved;
        complete = ap (λ o. o.config.birth_complete) orch';
        no_stage = ap (λ o. o.config.birth_stage) orch';
      }
