-- ===== src/Birth/Key.antt =====
-- The signing key in `complete_emergence` of crates/orion-birth/src/stages.rs.
use orion_dock.Prelude.{ℕ, String, ◌≡◌, refl, ap, inl, inr, Option, none, some, List, Bool-cases}
use orion_dock.Birth.Monotone.{and_then-trans}
use orion_dock.Birth.Stage.{BirthStage, is_stage}
use orion_dock.Birth.Machine.{record_birth, has_birth, Result, Run, and_then}
use orion_dock.Birth.Orchestrator.{Platform, Birth, outside, save}
use orion_dock.Birth.Ceremony.{
  finish, refuse_born, complete_emergence, sign_with, completed, forget_private_key, birth_text,
}

module _ {Engine : Type 0} (platform : Platform Engine) where
  -- Once a signing key is gone, the rest of an emergence does not bring it back.
  abbrev KeyGone : Birth Engine → Birth Engine → Type 0
  KeyGone b c = b.orchestrator.signing_key ≡ none → c.orchestrator.signing_key ≡ none

  gone-seq :
      {A B : Type 0} (b : Birth Engine) (r : Result A × Birth Engine) (k : A → Run (Birth Engine) B)
      → KeyGone b r.1
      → ((a : A) (t : Birth Engine) → KeyGone t (k a t).1)
      → KeyGone b (and_then r k).1
  gone-seq b r k h hk =
      and_then-trans KeyGone (λ a b c h k e. k (h e)) {s = b} r k h (λ a t e. hk a t)

  refuse_born-KeyGone : (b : Birth Engine) → KeyGone b (refuse_born platform b).1
  unfolding refuse_born
  refuse_born-KeyGone b =
      gone-seq b (outside (has_birth b.orchestrator.agent_id) b) _ (λ e. e)
        (λ born t e. elim (Bool-cases born) [ inl old ↦ rw old e | inr new' ↦ rw new' e ])

  save-KeyGone : (b : Birth Engine) → KeyGone b (save b).1
  unfolding save
  save-KeyGone b e = e

  finish-KeyGone : (b : Birth Engine) → KeyGone b (finish platform b).1
  unfolding finish
  finish-KeyGone b =
      gone-seq b
        (outside (record_birth b.orchestrator.agent_id (birth_text (platform.now b.world.ticks))) b)
        _ (λ e. e)
        (λ a t.
          save-KeyGone
            (record t { orchestrator = completed (platform.now b.world.ticks) t.orchestrator }))

  sign_with-KeyGone :
      (docs : String) (o : Option (List ℕ)) (b : Birth Engine)
      → KeyGone b (sign_with platform docs o b).1
  sign_with-KeyGone docs none b e = e
  sign_with-KeyGone docs (some key) b e = e

  -- An emergence at its stage takes the signing key away, even if it fails.
  pub complete_emergence-drops_key :
      (b : Birth Engine)
      → b.orchestrator.stage ≡ BirthStage.emergence
      → (complete_emergence platform b).1.orchestrator.signing_key ≡ none
  unfolding complete_emergence
  complete_emergence-drops_key b h =
      let taken : Birth Engine = record b {
        orchestrator = record b.orchestrator { signing_key = none };
      } in
      rw (ap (λ t. is_stage t BirthStage.emergence) h, complete_emergence)
        (gone-seq taken
          (sign_with platform b.orchestrator.config.docs_dir b.orchestrator.signing_key taken) _
          (sign_with-KeyGone _ b.orchestrator.signing_key taken)
          (λ a t.
            gone-seq t
              (refuse_born platform (record t { orchestrator = forget_private_key t.orchestrator }))
              _
              (refuse_born-KeyGone (record t { orchestrator = forget_private_key t.orchestrator }))
              (λ a u. finish-KeyGone u))
          refl)
