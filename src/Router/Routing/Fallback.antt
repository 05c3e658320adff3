-- ===== src/Router/Routing/Fallback.antt =====
-- When the routes of crates/orion-router/src/router.rs that prefer Ego fail.
use orion_dock.Prelude.{
  String, ◌≡◌, refl, sym, ap, ◌∙◌, ◌↔◌, ◌⊎◌, inl, inr, Option, none, some, List, Option-cases,
}
use orion_dock.Core.Superego.{Unicode}
use orion_dock.Router.Provider.{
  Result, ok, err, ToolDefinition, Message, CompletionRequest, CompletionResponse, LlmProvider,
}
use orion_dock.Router.Routing.{
  Reader, IdEgoRouter, run_superego_precheck, unless_denied, or_else, ego_then_id, route_with_tools,
}

module _ {Value W : Type 0} (router : IdEgoRouter Value W) where
  -- Ego is not there, or it failed and left the world `w'`.
  abbrev pub EgoFails : CompletionRequest Value → W → W → Type 0
  EgoFails request w w' =
      ((router.ego ≡ none) × (w' ≡ w))
      ⊎ ((ego : LlmProvider Value W) × (e : String) × (router.ego ≡ some ego)
          × (ego.complete request w ≡ (err e, w')))

  abbrev pub BothFail : CompletionRequest Value → W → String → W → Type 0
  BothFail request w e w' =
      (v : W) × EgoFails request w v × (router.id.complete request v ≡ (err e, w'))

  alone-eq :
      (request : CompletionRequest Value) (w : W)
      → router.ego ≡ none
      → ego_then_id router request w ≡ router.id.complete request w
  alone-eq request w alone = rw alone refl

  ego-eq :
      (request : CompletionRequest Value) (w : W) (ego : LlmProvider Value W)
      → router.ego ≡ some ego
      → ego_then_id router request w ≡ or_else (ego.complete request w) (router.id.complete request)
  ego-eq request w ego there = rw there refl

  or_else-err :
      (r : Result CompletionResponse × W) (k : W → Result CompletionResponse × W) (e : String)
      (w' : W)
      → or_else r k ≡ (err e, w')
      → (e' : String) × (v : W) × (r ≡ (err e', v)) × (k v ≡ (err e, w'))
  or_else-err (ok response, w) k e w' h = let h' = ap (λ p. p.0) h in cc
  or_else-err (err e', w) k e w' h = (e', w, refl, h)

  ego_then_id-err_iff :
      (request : CompletionRequest Value) (w : W) (e : String) (w' : W)
      → (ego_then_id router request w ≡ (err e, w')) ↔ BothFail request w e w'
  ego_then_id-err_iff request w e w' = (
    λ h. elim (Option-cases router.ego) [
      | inl alone ↦ (w, inl (alone, refl), sym (alone-eq request w alone) ∙ h)
      | inr (ego, there) ↦
          let (e', v, failed, last) =
            or_else-err (ego.complete request w) (router.id.complete request) e w'
              (sym (ego-eq request w ego there) ∙ h) in
          (v, inr (ego, e', there, failed), last)
    ],
    λ (v, before, last). elim before [
      | inl (alone, same) ↦
          alone-eq request w alone ∙ (ap (router.id.complete request) (sym same) ∙ last)
      | inr (ego, e', there, failed) ↦ ego-eq request w ego there ∙ rw failed last
    ],
  )

  unless_denied-err_iff :
      (r : Option CompletionResponse × W) (k : W → Result CompletionResponse × W) (e : String)
      (w' : W)
      → (unless_denied r k ≡ (err e, w')) ↔ ((r.0 ≡ none) × (k r.1 ≡ (err e, w')))
  unless_denied-err_iff (some response, w) k e w' =
      (λ h. let h' = ap (λ p. p.0) h in cc, λ (h, _). cc)
  unless_denied-err_iff (none, w) k e w' = (λ h. (refl, h), λ (_, h). h)

  module _ (u : Unicode) (upper : String → String) (json : Reader Value) where
    -- A route with tools fails exactly when the check lets the message pass, Ego is not there or fails,
    -- and Id fails after it.
    pub route_with_tools-err_iff :
        (messages : List Message) (tools : List (ToolDefinition Value)) (w : W) (e : String)
        (w' : W)
        → (route_with_tools u upper json router messages tools w ≡ (err e, w')) ↔ (
            ((run_superego_precheck u upper json router messages w).0 ≡ none)
            × BothFail
                (record { messages = messages; tools = some tools })
                (run_superego_precheck u upper json router messages w).1
                e
                w')
    unfolding route_with_tools
    route_with_tools-err_iff messages tools w e w' =
        let request : CompletionRequest Value = record {
          messages = messages;
          tools = some tools;
        } in
        let (split, join) =
          unless_denied-err_iff (run_superego_precheck u upper json router messages w)
            (ego_then_id router request) e w' in
        let (apart, together) =
          ego_then_id-err_iff request (run_superego_precheck u upper json router messages w).1 e
            w' in
        (
          λ h. let (passed, failed) = split h in (passed, apart failed),
          λ (passed, failed). join (passed, together failed),
        )
