-- ===== src/Tools/Http/Requests.antt =====
-- The requests of skills/skill-http/src/lib.rs and the dispatch of its tools. `none` stands for a panic
-- of a slice of a text.
use Prim.Native.String.{len, slice}
use mathlib.Core.Option
use text.Mathlib.Text.{is_char_boundary}
use orion_dock.Prelude.{
  ℕ, String, Bool, true, false, not, ◌&&◌, ◌||◌, Option, none, some, List, [], ◌∷◌, ◌++◌, leb, ltb,
  min, map, if◌then◌else◌, ◌⧺◌, ◌==◌, concat, decimal, contains_text, Dict, lookup, insert,
}
use orion_dock.Skills.Failure.{StructuredFailure}
use orion_dock.Skills.Registry.{SkillResult, ok, err, tool_failed}
use orion_dock.Skills.Executor.{ToolOutput, ToolParams}
use orion_dock.Tools.Host.{Io, Json}
use orion_dock.Urls.{Url, Urls, Checked}
use orion_dock.Tools.Http.{max_response_bytes, validate_url}

pub data Method : Type 0 where
  get post : Method

-- What goes to the client: the headers in the order in which they are set
pub record Request : Type 0 where
  pub method : Method
  pub url : String
  pub headers : List (String × String)
  pub body : Option String

-- The bytes of a body: their number, and the text of the first so many, with replacements
pub record Bytes : Type 0 where
  pub size : ℕ
  pub utf8_lossy : ℕ → String

-- A value of a header is missing if it is no text.
pub record Response : Type 0 where
  pub status : ℕ
  pub canonical_reason : Option String
  pub headers : List (String × Option String)
  pub bytes : Io Bytes

-- The client over a world `W`, and the decoder of a map of texts
pub record Client (Value W : Type 0) : Type 0 where
  pub send : Request → W → Io Response × W
  pub to_headers : Value → Option (List (String × String))

abbrev pub or_empty : Option String → String
or_empty none = ""
or_empty (some s) = s

-- The headers collected in a map, where a later one of the same name wins
unfoldable pub collect : List (String × Option String) → Dict String → Dict String
unfolding insert
collect [] found = found
collect ((k, v) ∷ headers) found = collect headers (insert k (or_empty v) found)

abbrev pub in_success : ℕ → Bool
in_success status = leb 200 status && ltb status 300

unfoldable pub formatted : ℕ → String → String → Option String
formatted status status_text body =
    if not (in_success status)
    then some (concat ("HTTP " ∷ decimal status ∷ " " ∷ status_text ∷ "\n" ∷ body ∷ []))
    else if not (ltb 2000 (len body))
    then some body
    else if is_char_boundary body 2000
    then some (
        concat (
          decimal status
          ∷ " ("
          ∷ status_text
          ∷ ")\n"
          ∷ slice body 0 2000
          ∷ "...\n[truncated at 2000 chars, full body in 'body' field]"
          ∷ []))
    else none

abbrev pub or_no_headers : Option (List (String × String)) → List (String × String)
or_no_headers none = []
or_no_headers (some headers) = headers

abbrev pub type_header : Option String → List (String × String)
type_header none = []
type_header (some ct) = ("Content-Type", ct) ∷ []

module _ {Value W : Type 0} (json : Json Value) (urls : Urls) (client : Client Value W) where
  abbrev pub success_output : Value → ToolOutput Value
  success_output v = record {
    success = true;
    payload = some v;
    error = none;
    structured_failure = none;
    metadata = json.no_metadata;
  }

  abbrev pub structured_error : String → StructuredFailure → ToolOutput Value
  structured_error message failure = record {
    success = false;
    payload = none;
    error = some message;
    structured_failure = some failure;
    metadata = json.no_metadata;
  }

  abbrev pub text_field : String × String → String × Value
  text_field (k, v) = (k, json.text v)

  abbrev pub output : Response → Dict String → Bool → String → String → ToolOutput Value
  output r headers truncated body shown = success_output (
      json.object (
        ("formatted", json.text shown)
        ∷ ("status", json.number r.status)
        ∷ ("status_text", json.text (or_empty r.canonical_reason))
        ∷ ("body", json.text body)
        ∷ ("body_truncated", json.boolean truncated)
        ∷ ("content_type", json.text (or_empty (lookup "content-type" headers)))
        ∷ ("headers", json.object (map text_field headers))
        ∷ []))

  abbrev pub with_body : Response → Io Bytes → Option (SkillResult (ToolOutput Value))
  with_body r (Io.failed e) = some (err (tool_failed ("Failed to read response body: " ⧺ e)))
  with_body r (Io.done bytes) =
      let body = bytes.utf8_lossy (min bytes.size max_response_bytes) in
      Option.map
        (λ shown.
          ok (output r (collect r.headers []) (ltb max_response_bytes bytes.size) body shown))
        (formatted r.status (or_empty r.canonical_reason) body)

  -- What becomes of the answer to a request
  unfoldable pub read_response : Io Response → Option (SkillResult (ToolOutput Value))
  read_response (Io.failed e) = some (err (tool_failed ("Request failed: " ⧺ e)))
  read_response (Io.done r) = with_body r r.bytes

  unfoldable pub execute_request : Request → W → Option (SkillResult (ToolOutput Value)) × W
  execute_request request w = let (answer, w') = client.send request w in (read_response answer, w')

  abbrev pub get_valid :
      Option (List (String × String))
      → Checked Url
      → W
      → Option (SkillResult (ToolOutput Value)) × W
  get_valid headers (Checked.err e) w = (some (err (tool_failed e)), w)
  get_valid headers (Checked.ok url) w =
      execute_request
        (record {
          method = Method.get;
          url = url.as_str;
          headers = or_no_headers headers;
          body = none;
        })
        w

  unfoldable pub http_get :
      String → Option (List (String × String)) → W → Option (SkillResult (ToolOutput Value)) × W
  unfolding execute_request
  http_get url_str headers w = get_valid headers (validate_url urls url_str) w

  abbrev pub post_valid :
      Option String
      → Option String
      → Option (List (String × String))
      → Checked Url
      → W
      → Option (SkillResult (ToolOutput Value)) × W
  post_valid body content_type headers (Checked.err e) w = (some (err (tool_failed e)), w)
  post_valid body content_type headers (Checked.ok url) w =
      execute_request
        (record {
          method = Method.post;
          url = url.as_str;
          headers = or_no_headers headers ++ type_header content_type;
          body = body;
        })
        w

  unfoldable pub http_post :
      String
      → Option String
      → Option String
      → Option (List (String × String))
      → W
      → Option (SkillResult (ToolOutput Value)) × W
  unfolding execute_request
  http_post url_str body content_type headers w =
      post_valid body content_type headers (validate_url urls url_str) w

  -- The errors that become structured failures
  abbrev pub structured : String → SkillResult (ToolOutput Value)
  structured msg =
      if contains_text msg "Request failed" || contains_text msg "response body"
      then ok (structured_error msg (StructuredFailure.connection_failed "http-target" 0 msg []))
      else if contains_text msg "blocked"
      then ok (
          structured_error msg (
            StructuredFailure.permission_denied msg
              ("Only public HTTP/HTTPS URLs are allowed" ∷ [])))
      else err (tool_failed msg)

  unfoldable pub convert : SkillResult (ToolOutput Value) → SkillResult (ToolOutput Value)
  unfolding contains_text
  convert (err (tool_failed msg)) = structured msg
  convert (err e) = err e
  convert (ok out) = ok out

  -- `params.get(key)`
  abbrev pub param : {A : Type 0} → (Value → Option A) → ToolParams Value → String → Option A
  param read params key = elim (lookup key params.values) [ none ↦ none | some v ↦ read v ]

  abbrev pub missing_url : SkillResult (ToolOutput Value)
  missing_url = err (tool_failed "Missing required parameter: url")

  abbrev pub converted :
      Option (SkillResult (ToolOutput Value)) × W → Option (SkillResult (ToolOutput Value)) × W
  converted (result, w) = (Option.map convert result, w)

  -- A missing URL returns at once, before the conversion.
  abbrev pub get_tool :
      Option String
      → Option (List (String × String))
      → W
      → Option (SkillResult (ToolOutput Value)) × W
  get_tool none headers w = (some missing_url, w)
  get_tool (some url) headers w = converted (http_get url headers w)

  abbrev pub post_tool :
      Option String
      → Option String
      → Option String
      → Option (List (String × String))
      → W
      → Option (SkillResult (ToolOutput Value)) × W
  post_tool none body content_type headers w = (some missing_url, w)
  post_tool (some url) body content_type headers w =
      converted (http_post url body content_type headers w)

  unfoldable pub execute_tool :
      String → ToolParams Value → W → Option (SkillResult (ToolOutput Value)) × W
  unfolding http_get http_post lookup convert
  execute_tool tool_name params w =
      if tool_name == "http_get"
      then get_tool (param json.to_string params "url") (param client.to_headers params "headers") w
      else if tool_name == "http_post"
      then post_tool (param json.to_string params "url") (param json.to_string params "body")
          (param json.to_string params "content_type") (param client.to_headers params "headers") w
      else converted (some (err (tool_failed ("Unknown tool: " ⧺ tool_name))), w)
