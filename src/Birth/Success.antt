-- ===== src/Birth/Success.antt =====
-- Runs of crates/orion-birth/src/stages.rs that succeed when nothing outside fails, and what they keep.
use orion_dock.Prelude.{
  String, ◌≡◌, refl, sym, ap, ◌∙◌, subst, inl, inr, true, false, some, [], arith, Option-cases,
  lookup, insert, lookup-insert, eq_refl,
}
use orion_dock.Birth.Stage.{BirthStage, is_stage}
use orion_dock.Birth.Machine.{
  Result, World, Run, ok, err, and_then, ◌>>◌, fallible, is_born, exists,
}
use orion_dock.Birth.Orchestrator.{Birth}

-- Nothing outside will fail, the stage is `stage`, and the agent is not born.
abbrev pub Calm : {Engine : Type 0} → BirthStage → Birth Engine → Type 0
Calm stage b =
    (b.world.faults ≡ [])
    × (b.orchestrator.stage ≡ stage)
    × (is_born b.orchestrator.agent_id b.world ≡ false)

-- From each state that `P` holds of, a run succeeds and leaves a state that `Q` holds of.
pub record Succeeds {Engine : Type 0} (P : Birth Engine → Type 0) (m : Run (Birth Engine) Unit)
    (Q : Birth Engine → Type 0) : Type 0 where
  pub run : (b : Birth Engine) → P b → ((m b).0 ≡ ok tt) × Q (m b).1

pub fallible-quiet :
    (e : _) (f : World → World) (w : World)
    → w.faults ≡ []
    → fallible e f w ≡ (ok tt, f (record w { faults = [] }))
unfolding fallible
fallible-quiet e f w h = rw h refl

pub and_then-done :
    {S : Type 0} (r : Result Unit × S) (k : Run S Unit) → r.0 ≡ ok tt → and_then r (λ u. k) ≡ k r.1
and_then-done (ok u, s) k h = refl
and_then-done (err e, s) k h = cc

pub exists-written :
    (path content : String) (w : World)
    → exists path (record w { files = insert path content w.files }) ≡ true
exists-written path content w =
    ground (arith, lookup-insert path path content w.files, eq_refl path)

pub exists-lookup :
    (path : String) (w : World)
    → exists path w ≡ true
    → (content : String) × (lookup path w.files ≡ some content)
exists-lookup path w h = elim (Option-cases (lookup path w.files)) [
  | inl gone ↦ absurd (ground arith)
  | inr found ↦ found
]

pub exists-kept :
    (path p content : String) (w : World)
    → exists path w ≡ true
    → exists path (record w { files = insert p content w.files }) ≡ true
exists-kept path p content w h = ground (arith, lookup-insert p path content w.files)

pub is_stage_refl : (stage : BirthStage) → is_stage stage stage ≡ true
is_stage_refl BirthStage.darkness = refl
is_stage_refl BirthStage.ignition = refl
is_stage_refl BirthStage.connectivity = refl
is_stage_refl BirthStage.genesis = refl
is_stage_refl BirthStage.emergence = refl

infixr 4 ◌⨾◌
pub ◌⨾◌ :
    {Engine : Type 0} {P Q R : Birth Engine → Type 0} {m k : Run (Birth Engine) Unit}
    → Succeeds P m Q
    → Succeeds Q k R
    → Succeeds P (m >> k) R
◌⨾◌ {R = R} {m = m} {k = k} hm hk = record {
  run = λ b p.
      let (good, q) = hm.run b p in
      let same = and_then-done (m b) k good in
      let (end, r) = hk.run (m b).1 q in
      (ap (λ r. r.0) same ∙ end, subst R (sym (ap (λ r. r.1) same)) r);
}
