-- ===== src/Views/Traces.antt =====
-- The handler of services/api/internal/http/traces.go, and services/api/internal/tempo/client.go. Tempo's answer is given as
-- its status and what its JSON decodes to. The services of a trace stand in the order of their batches, which Go leaves
-- open. Times are below 2^63.
use Prim.Native.Char.{Char, code}
use Prim.Native.String.{len}
use Prim.Native.String as Text
use trace_runtime.Prelude.{
  ℕ, String, Bool, true, false, ◌&&◌, ◌||◌, ◌⊎◌, inl, inr, Option, none, some, List, [], ◌∷◌, ◌++◌,
  leb, contains, ◌==◌, if◌then◌else◌, string_eq,
}
use trace_runtime.Prelude.Int.{ℤ, sub_ℕ}
use trace_runtime.Prelude.Assoc.{put}
use trace_runtime.Tasks.{TaskRow}

-- ^[0-9a-f]{32}$
abbrev is_hex : Char → Bool
is_hex c = (leb 48 (code c) && leb (code c) 57) || (leb 97 (code c) && leb (code c) 102)

unfoldable pub all_hex : String → Bool
all_hex Text.[] = true
all_hex (Text.◌∷◌ c s) = if is_hex c then all_hex s else false

unfoldable pub valid_trace_id : String → Bool
unfolding all_hex
valid_trace_id id = leb 32 (len id) && leb (len id) 32 && all_hex id

-- A value of OTLP, a string or an integer as text.
pub record OtlpValue : Type 0 where
  pub string_value : Option String
  pub int_value : Option String

-- The JSON of a time: a number, a text with the number at its start if there is one, or another value.
pub data Nano : Type 0 where
  number : ℕ → Nano
  text : Option ℕ → Nano
  other : Nano

pub record OtlpSpan : Type 0 where
  pub span_id : String
  pub parent_span_id : String
  pub name : String
  pub start : Nano
  pub end : Nano
  pub attributes : List (String × OtlpValue)
  pub status_code : ℕ

pub record OtlpBatch : Type 0 where
  pub resource : List (String × OtlpValue)
  pub scope_spans : List (List OtlpSpan)

pub record Span : Type 0 where
  pub span_id : String
  pub parent_span_id : String
  pub operation_name : String
  pub service_name : String
  pub start_time_unix_nano : ℕ
  pub duration_nano : ℤ
  pub status : String
  pub attributes : List (String × String)

pub record TraceResponse : Type 0 where
  pub trace_id : String
  pub spans : List Span
  pub services : List String

abbrev extract_value : OtlpValue → String
extract_value v = elim v.string_value [
  | some s ↦ s
  | none ↦ elim v.int_value [ some n ↦ n | none ↦ "" ]
]

unfoldable pub extract_service_name : List (String × OtlpValue) → String
extract_service_name [] = ""
extract_service_name ((key, v) ∷ attrs) =
    if key == "service.name" then extract_value v else extract_service_name attrs

abbrev parse_nano : Nano → ℕ
parse_nano (number n) = n
parse_nano (text none) = 0
parse_nano (text (some n)) = n
parse_nano other = 0

abbrev status_text : ℕ → String
status_text code =
    if leb code 1 && leb 1 code then "ok" else if leb code 2 && leb 2 code then "error" else "unset"

-- A later attribute of a key replaces the one before.
unfoldable pub attributes_of :
    List (String × OtlpValue) → List (String × String) → List (String × String)
unfolding put
attributes_of [] attrs = attrs
attributes_of ((key, v) ∷ rest) attrs = attributes_of rest (put attrs key (extract_value v))

unfoldable pub convert_span : String → OtlpSpan → Span
unfolding attributes_of
convert_span service s = record {
  span_id = s.span_id;
  parent_span_id = s.parent_span_id;
  operation_name = s.name;
  service_name = service;
  start_time_unix_nano = parse_nano s.start;
  duration_nano = sub_ℕ (parse_nano s.end) (parse_nano s.start);
  status = status_text s.status_code;
  attributes = attributes_of s.attributes [];
}

abbrev convert_scope : String → List OtlpSpan → List Span
convert_scope service [] = []
convert_scope service (s ∷ spans) = convert_span service s ∷ convert_scope service spans

abbrev convert_scopes : String → List (List OtlpSpan) → List Span
convert_scopes service [] = []
convert_scopes service (scope ∷ scopes) =
    convert_scope service scope ++ convert_scopes service scopes

unfoldable pub convert_spans : List OtlpBatch → List Span
unfolding convert_span extract_service_name
convert_spans [] = []
convert_spans (b ∷ batches) =
    convert_scopes (extract_service_name b.resource) b.scope_spans ++ convert_spans batches

abbrev with_service : String → List String → List String
with_service name services =
    if name == "" || contains services name then services else services ++ name ∷ []

unfoldable pub services_of : List OtlpBatch → List String → List String
unfolding extract_service_name
services_of [] services = services
services_of (b ∷ batches) services =
    services_of batches (with_service (extract_service_name b.resource) services)

unfoldable pub convert_otlp : String → List OtlpBatch → TraceResponse
unfolding convert_spans services_of
convert_otlp trace_id batches = record {
  trace_id = trace_id;
  spans = convert_spans batches;
  services = services_of batches [];
}

-- What becomes of the request to Tempo: none if it fails; `body` is none if it does not decode.
pub record TempoReply : Type 0 where
  pub status : ℕ
  pub body : Option (List OtlpBatch)

abbrev decoded : String → Option (List OtlpBatch) → String ⊎ Option TraceResponse
decoded trace_id none = inl "decode tempo response"
decoded trace_id (some batches) = inr (some (convert_otlp trace_id batches))

-- A trace that Tempo does not know is no error.
unfoldable pub get_trace : String → Option TempoReply → String ⊎ Option TraceResponse
unfolding valid_trace_id convert_otlp
get_trace trace_id none =
    if valid_trace_id trace_id then inl "tempo request" else inl "invalid trace ID format"
get_trace trace_id (some reply) =
    if valid_trace_id trace_id
    then if leb reply.status 404 && leb 404 reply.status
      then inr none
      else if leb reply.status 200 && leb 200 reply.status
      then decoded trace_id reply.body
      else inl "tempo returned another status"
    else inl "invalid trace ID format"

pub record TraceDetail : Type 0 where
  pub trace_id : String
  pub task : TaskRow
  pub spans : List Span
  pub services : List String
  pub tempo_available : Bool

pub data TraceReply : Type 0 where
  detail : TraceDetail → TraceReply
  error : ℕ → TraceReply

-- Without a trace, also after an error of Tempo, the task is shown alone.
abbrev answer : String → TaskRow → String ⊎ Option TraceResponse → TraceDetail
answer id task (inr (some trace)) = record {
  trace_id = id;
  task = task;
  spans = trace.spans;
  services = trace.services;
  tempo_available = true;
}
answer id task _ = record {
  trace_id = id;
  task = task;
  spans = [];
  services = [];
  tempo_available = false;
}

abbrev of_client : String → Option (Option TempoReply) → String ⊎ Option TraceResponse
of_client id none = inr none
of_client id (some reply) = get_trace id reply

abbrev of_task : String → Option TaskRow → Option (Option TempoReply) → TraceReply
of_task id none tempo = error 404
of_task id (some task) tempo = detail (answer id task (of_client id tempo))

-- The task of the trace, if the query is answered; `tempo` is none where there is no client.
unfoldable pub trace_detail :
    String → Option (Option TaskRow) → (tempo : Option (Option TempoReply)) → TraceReply
unfolding get_trace valid_trace_id
trace_detail id queried tempo =
    if valid_trace_id id
    then elim queried [ none ↦ error 500 | some task ↦ of_task id task tempo ]
    else error 400
