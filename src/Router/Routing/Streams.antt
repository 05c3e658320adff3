-- ===== src/Router/Routing/Streams.antt =====
-- What the streams of crates/orion-router/src/router.rs send on their channel.
use text.Mathlib.TextLemmas.{append-nil}
use orion_dock.Prelude.{
  String, ◌≡◌, refl, sym, ap, ◌∙◌, ◌⊎◌, inl, inr, Option, none, some, List, [], ◌∷◌, ◌++◌, ◌⧺◌,
  Option-cases, subst,
}
use orion_dock.Core.Superego.{Unicode}
use orion_dock.Router.Provider.{
  Result, ok, err, ToolDefinition, Message, CompletionRequest, CompletionResponse, StreamEvent,
  Streamed, LlmProvider, whole, sent_whole, default_stream,
}
use orion_dock.Router.Routing.{
  Reader, IdEgoRouter, run_superego_precheck, route_stream_with_tools, unless_denied_stream,
  last_resort, or_id_stream, stream_tools,
}

-- The text that the tokens add up to.
unfoldable pub tokens_text : List StreamEvent → String
tokens_text [] = ""
tokens_text (StreamEvent.token s ∷ events) = s ⧺ tokens_text events
tokens_text (StreamEvent.done response ∷ events) = tokens_text events

-- The tokens add up to the response, which the last event hands over.
pub record Delivers (events : List StreamEvent) (response : CompletionResponse) : Type 0 where
  pub before : List StreamEvent
  pub closed : events ≡ before ++ (StreamEvent.done response ∷ [])
  pub complete : tokens_text events ≡ response.content

-- A stream of the provider that succeeds delivers its response.
abbrev pub IsFaithful : {Value W : Type 0} → LlmProvider Value W → Type 0
IsFaithful {Value} {W} provider =
    (request : CompletionRequest Value) (w w' : W) (events : List StreamEvent)
    (response : CompletionResponse)
    → provider.stream request w ≡ ((events, ok response), w')
    → Delivers events response

whole-Delivers : (response : CompletionResponse) → Delivers (whole response) response
unfolding tokens_text
whole-Delivers response = record {
  before = StreamEvent.token response.content ∷ [];
  closed = refl;
  complete = append-nil response.content;
}

ok-injective : {A : Type 0} {a b : A} → ok a ≡ ok b → a ≡ b
ok-injective h = cc

sent-Delivers :
    {W : Type 0} (r : Result CompletionResponse × W) (response : CompletionResponse)
    → (sent_whole r).0.1 ≡ ok response
    → Delivers (sent_whole r).0.0 response
sent-Delivers (ok response', w) response h =
    subst (Delivers (whole response')) (ok-injective h) (whole-Delivers response')
sent-Delivers (err e, w) response h = cc

-- The trait's own stream delivers what `complete` answers.
pub default_stream-Delivers :
    {Value W : Type 0} (complete : CompletionRequest Value → W → Result CompletionResponse × W)
    → IsFaithful (record { complete = complete; stream = default_stream complete })
unfolding default_stream
default_stream-Delivers complete request w w' events response h =
    subst (λ e. Delivers e response) (ap (λ r. r.0.0) h)
      (sent-Delivers (complete request w) response (ap (λ r. r.0.1) h))

module _ {Value W : Type 0} (router : IdEgoRouter Value W) where
  -- Both models are faithful, the second if it is there.
  pub record AreFaithful : Type 0 where
    pub id : IsFaithful router.id
    pub ego : (ego : LlmProvider Value W) → router.ego ≡ some ego → IsFaithful ego

  -- What was sent: perhaps the events of Id's stream that failed after Ego's did, and then the
  -- response.
  pub record Sent (events : List StreamEvent) (response : CompletionResponse) : Type 0 where
    pub leaked : List StreamEvent
    pub rest : List StreamEvent
    pub split : events ≡ leaked ++ rest
    pub delivers : Delivers rest response
    pub leak :
        (leaked ≡ [])
        ⊎ ((request : CompletionRequest Value) × (w : W) × (e : String) × ((router.id.stream request
                w).0
              ≡ (leaked, err e)))

  all-Sent :
      {events : List StreamEvent} {response : CompletionResponse}
      → Delivers events response
      → Sent events response
  all-Sent {events} d = record {
    leaked = [];
    rest = events;
    split = refl;
    delivers = d;
    leak = inl refl;
  }

  last_resort-Sent :
      (request : CompletionRequest Value) (w : W) (r : Streamed × W) (events : List StreamEvent)
      (response : CompletionResponse) (w' : W)
      → AreFaithful
      → router.id.stream request w ≡ r
      → last_resort router request r ≡ ((events, ok response), w')
      → Sent events response
  last_resort-Sent request w ((sent, ok response'), v) events response w' faithful ran h =
      all-Sent (faithful.id request w w' events response (ran ∙ h))
  last_resort-Sent request w ((sent, err e), v) events response w' faithful ran h =
      let whole_run = sent_whole (router.id.complete request v) in
      record {
        leaked = sent;
        rest = whole_run.0.0;
        split = sym (ap (λ r. r.0.0) h);
        delivers = sent-Delivers (router.id.complete request v) response (ap (λ r. r.0.1) h);
        leak = inr (request, w, e, ap (λ r. r.0) ran);
      }

  or_id_stream-Sent :
      (request : CompletionRequest Value) (w : W) (ego : LlmProvider Value W) (r : Streamed × W)
      (events : List StreamEvent) (response : CompletionResponse) (w' : W)
      → AreFaithful
      → router.ego ≡ some ego
      → ego.stream request w ≡ r
      → or_id_stream router request r ≡ ((events, ok response), w')
      → Sent events response
  or_id_stream-Sent request w ego ((sent, ok response'), v) events response w' faithful there ran
        h =
      all-Sent (faithful.ego ego there request w w' events response (ran ∙ h))
  or_id_stream-Sent request w ego ((sent, err e), v) events response w' faithful there ran h =
      last_resort-Sent request v (router.id.stream request v) events response w' faithful refl h

  stream_tools-alone :
      (request : CompletionRequest Value) (w : W)
      → router.ego ≡ none
      → stream_tools router request w ≡ router.id.stream request w
  stream_tools-alone request w alone = rw alone refl

  stream_tools-ego :
      (request : CompletionRequest Value) (w : W) (ego : LlmProvider Value W)
      → router.ego ≡ some ego
      → stream_tools router request w ≡ or_id_stream router request (ego.stream request w)
  stream_tools-ego request w ego there = rw there refl

  stream_tools-Sent :
      (request : CompletionRequest Value) (w : W) (events : List StreamEvent)
      (response : CompletionResponse) (w' : W)
      → AreFaithful
      → stream_tools router request w ≡ ((events, ok response), w')
      → Sent events response
  stream_tools-Sent request w events response w' faithful h = elim (Option-cases router.ego) [
    | inl alone ↦
        all-Sent
          (faithful.id request w w' events response (sym (stream_tools-alone request w alone) ∙ h))
    | inr (ego, there) ↦
        or_id_stream-Sent request w ego (ego.stream request w) events response w' faithful there
          refl (sym (stream_tools-ego request w ego there) ∙ h)
  ]

  unless_denied-Sent :
      (request : CompletionRequest Value) (r : Option CompletionResponse × W)
      (events : List StreamEvent) (response : CompletionResponse) (w' : W)
      → AreFaithful
      → unless_denied_stream r (stream_tools router request) ≡ ((events, ok response), w')
      → Sent events response
  unless_denied-Sent request (some refused, w) events response w' faithful h = all-Sent (
      subst (λ e. Delivers e response) (ap (λ r. r.0.0) h)
        (sent-Delivers (ok refused, w) response (ap (λ r. r.0.1) h)))
  unless_denied-Sent request (none, w) events response w' faithful h =
      stream_tools-Sent request w events response w' faithful h

  module _ (u : Unicode) (upper : String → String) (json : Reader Value) where
    -- When both models deliver the responses of their own streams, a stream with tools that succeeds
    -- sends tokens that add up to its response and then the response itself. Only the events of a
    -- stream of Id that failed may stand before them; those of a stream of Ego that failed are dropped.
    pub route_stream_with_tools-Sent :
        (messages : List Message) (tools : List (ToolDefinition Value)) (w w' : W)
        (events : List StreamEvent) (response : CompletionResponse)
        → AreFaithful
        → route_stream_with_tools u upper json router messages tools w ≡ ((events, ok response), w')
        → Sent events response
    unfolding route_stream_with_tools
    route_stream_with_tools-Sent messages tools w w' events response faithful h =
        unless_denied-Sent (record { messages = messages; tools = some tools })
          (run_superego_precheck u upper json router messages w) events response w' faithful h
