-- ===== src/Birth/Forward.antt =====
-- The order of the stages through the operations of crates/orion-birth/src/stages.rs: their parts,
-- and the operations that touch no file.
use orion_dock.Prelude.{
  ℕ, ◌≤◌, String, ◌≡◌, refl, inl, inr, true, some, List, arith, eqb, Bool-cases, length,
}
use orion_dock.Birth.Stage.{BirthStage, name, is_stage, rank}
use orion_dock.Birth.Machine.{World, Run, ◌>>=◌, ◌>>◌, fallible, write, io}
use orion_dock.Birth.Orchestrator.{
  path_or_direct, BirthOrchestrator, Birth, outside, modify, save, persist_stage, enter,
  advance_past_darkness, advance_to_connectivity, advance_to_genesis, set_signing_key_bytes,
}
use orion_dock.Birth.Monotone.{
  write-Keeps, nothing-Keeps, Keeps, Later, Later-trans, same_births, and_then-trans,
  fallible-Keeps,
}

pub is_stage_iff : (t u : BirthStage) → is_stage t u ≡ true → t ≡ u
is_stage_iff t u h = ground arith

pub rank-emergence : (t : BirthStage) → rank t ≤ 4
rank-emergence t = ground arith

module _ {Engine : Type 0} where
  abbrev pub Forward : {A : Type 0} → Run (Birth Engine) A → Type 0
  Forward m = (b : Birth Engine) → Later b (m b).1

  pub seq-Forward :
      {A B : Type 0} (m : Run (Birth Engine) A) (k : A → Run (Birth Engine) B)
      → Forward m
      → ((a : A) → Forward (k a))
      → Forward (m >>= k)
  seq-Forward m k hm hk b =
      and_then-trans Later (λ a b c h k. Later-trans h k) (m b) k (hm b) (λ a c e. hk a c)

  pub outside-Forward : {A : Type 0} (m : Run World A) → Keeps m → Forward (outside m)
  outside-Forward m h b = record { forward = omega arith; same_agent = refl; kept = h b.world }

  modify-Later :
      (f : BirthOrchestrator Engine → BirthOrchestrator Engine) (b : Birth Engine)
      → rank b.orchestrator.stage ≤ rank (f b.orchestrator).stage
      → (f b.orchestrator).agent_id ≡ b.orchestrator.agent_id
      → Later b (modify f b).1
  modify-Later f b h e = record { forward = h; same_agent = e; kept = same_births refl refl }

  pub unmoved :
      (f : BirthOrchestrator Engine → BirthOrchestrator Engine)
      → ((o : BirthOrchestrator Engine) → ((f o).stage ≡ o.stage) × ((f o).agent_id ≡ o.agent_id))
      → Forward (modify f)
  unmoved f h b = modify-Later f b (rw (h b.orchestrator).0 (omega arith)) (h b.orchestrator).1

  pub save-Forward : Forward save
  unfolding save
  save-Forward b =
      outside-Forward (fallible io (λ w. record w { saved = some b.orchestrator.config }))
        (fallible-Keeps io (λ w. record w { saved = some b.orchestrator.config })
          (λ w. (refl, refl)))
        b

  persist_stage-Forward : Forward persist_stage
  unfolding persist_stage
  persist_stage-Forward b =
      Later-trans
        (unmoved (λ o. record o { config = record o.config { birth_stage = some (name o.stage) } })
          (λ o. (refl, refl)) b)
        (save-Forward _)

  pub enter-Later :
      (stage : BirthStage) (b : Birth Engine)
      → rank b.orchestrator.stage ≤ rank stage
      → Later b (enter stage b).1
  unfolding enter
  enter-Later stage b h =
      Later-trans (modify-Later (λ o. record o { stage = stage }) b h refl)
        (persist_stage-Forward _)

  pub here-Later : (b : Birth Engine) → Later b b
  here-Later b = record { forward = omega arith; same_agent = refl; kept = same_births refl refl }

  pub advance_past_darkness-Forward : Forward advance_past_darkness
  unfolding advance_past_darkness
  advance_past_darkness-Forward b =
      elim (Bool-cases (is_stage b.orchestrator.stage BirthStage.darkness)) [
        | inl now ↦
            rw (now, advance_past_darkness)
              (enter-Later BirthStage.ignition b (rw (is_stage_iff _ _ now) (omega arith)))
        | inr past ↦ rw (past, advance_past_darkness) (here-Later b)
      ]

  pub advance_to_connectivity-Forward : Forward advance_to_connectivity
  unfolding advance_to_connectivity
  advance_to_connectivity-Forward b =
      elim (Bool-cases (is_stage b.orchestrator.stage BirthStage.ignition)) [
        | inl now ↦
            rw (now, advance_to_connectivity)
              (enter-Later BirthStage.connectivity b (rw (is_stage_iff _ _ now) (omega arith)))
        | inr past ↦ rw (past, advance_to_connectivity) (here-Later b)
      ]

  pub advance_to_genesis-Forward : Forward advance_to_genesis
  unfolding advance_to_genesis
  advance_to_genesis-Forward b =
      elim (Bool-cases (is_stage b.orchestrator.stage BirthStage.connectivity)) [
        | inl now ↦
            rw (now, advance_to_genesis)
              (Later-trans
                {b = record b {
                  orchestrator = record b.orchestrator {
                    genesis_path = some (path_or_direct b.orchestrator.genesis_path);
                  };
                }}
                (record { forward = omega arith; same_agent = refl; kept = same_births refl refl })
                (enter-Later BirthStage.genesis _ (rw (is_stage_iff _ _ now) (omega arith))))
        | inr past ↦ rw (past, advance_to_genesis) (here-Later b)
      ]

  pub set_signing_key_bytes-Forward : (bytes : List ℕ) → Forward (set_signing_key_bytes bytes)
  unfolding set_signing_key_bytes
  set_signing_key_bytes-Forward bytes b = elim (Bool-cases (eqb (length bytes) 32)) [
    | inl good ↦
        rw (good, set_signing_key_bytes)
          (record { forward = omega arith; same_agent = refl; kept = same_births refl refl })
    | inr bad ↦ rw (bad, set_signing_key_bytes) (here-Later b)
  ]

  pub then-Forward :
      {A B : Type 0} (m : Run (Birth Engine) A) (k : Run (Birth Engine) B)
      → Forward m
      → Forward k
      → Forward (m >> k)
  then-Forward m k hm hk = seq-Forward m (λ a. k) hm (λ a. hk)

  pub write-Forward : (path content : String) → Forward (outside (write path content))
  write-Forward path content = outside-Forward (write path content) (write-Keeps path content)

  pub nothing-Forward : Forward (outside (fallible io (λ w. w)))
  nothing-Forward = outside-Forward (fallible io (λ w. w)) nothing-Keeps

  pub emergence-Forward : Forward (enter BirthStage.emergence)
  emergence-Forward b = enter-Later BirthStage.emergence b (rank-emergence b.orchestrator.stage)
