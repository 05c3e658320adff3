-- ===== src/Router/Provider.antt =====
-- crates/orion-capabilities/src/cognitive/provider.rs: what goes to a language model and comes back. A
-- provider is its two calls over a world `W`; a stream also has the events that it sent on its channel.
use orion_dock.Prelude.{String, Option, none, some, List, [], ◌∷◌, if◌then◌else◌, is_empty}

pub data Result (A : Type 0) : Type 0 where
  ok : A → Result A
  err : String → Result A

pub record ImageContent : Type 0 where
  pub data_base64 : String  -- the field `data`
  pub media_type : String

pub record ToolDefinition (Value : Type 0) : Type 0 where
  pub name : String
  pub description : String
  pub parameters : Value

pub record ToolCall : Type 0 where
  pub id : String
  pub name : String
  pub arguments : String

pub record Message : Type 0 where
  pub role : String
  pub content : String
  pub tool_call_id : Option String
  pub tool_calls : Option (List ToolCall)
  pub images : Option (List ImageContent)

pub record CompletionRequest (Value : Type 0) : Type 0 where
  pub messages : List Message
  pub tools : Option (List (ToolDefinition Value))

pub record CompletionResponse : Type 0 where
  pub content : String
  pub tool_calls : Option (List ToolCall)

pub data StreamEvent : Type 0 where
  token : String → StreamEvent
  done : CompletionResponse → StreamEvent

abbrev pub new : String → String → Message
new role content = record {
  role = role;
  content = content;
  tool_call_id = none;
  tool_calls = none;
  images = none;
}

abbrev pub with_images : String → String → List ImageContent → Message
with_images role content images = record (new role content) {
  images = if is_empty images then none else some images;
}

abbrev pub tool_result : String → String → Message
tool_result tool_call_id content = record (new "tool" content) { tool_call_id = some tool_call_id }

abbrev pub simple : {Value : Type 0} → List Message → CompletionRequest Value
simple messages = record { messages = messages; tools = none }

-- The events of a stream in the order in which they were sent, and its answer.
abbrev pub Streamed : Type 0
Streamed = List StreamEvent × Result CompletionResponse

pub record LlmProvider (Value W : Type 0) : Type 0 where
  pub complete : CompletionRequest Value → W → Result CompletionResponse × W
  pub stream : CompletionRequest Value → W → Streamed × W

-- A response that is sent as one token.
abbrev pub whole : CompletionResponse → List StreamEvent
whole response = StreamEvent.token response.content ∷ StreamEvent.done response ∷ []

abbrev pub sent_whole : {W : Type 0} → Result CompletionResponse × W → Streamed × W
sent_whole (ok response, w) = ((whole response, ok response), w)
sent_whole (err e, w) = (([], err e), w)

-- The trait's own `stream`
unfoldable pub default_stream :
    {Value W : Type 0}
    → (CompletionRequest Value → W → Result CompletionResponse × W)
    → CompletionRequest Value
    → W
    → Streamed × W
default_stream complete request w = sent_whole (complete request w)
