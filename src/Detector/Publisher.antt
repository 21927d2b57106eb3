-- ===== src/Detector/Publisher.antt =====
-- services/watchdog/internal/publisher/sse.go, with the events that detector.go hands to it. HTTP is given by its answer.
use Prim.Native.String.{◌++◌ as text_append}
use trace_runtime.Prelude.{
  ◌≡◌, refl, ℕ, String, Option, none, some, List, [], ◌∷◌, ◌==◌, if◌then◌else◌, leb, Bool-cases,
  inl, inr, eq_refl,
}
use trace_runtime.Prelude.Decimal.{decimal}
use trace_runtime.Healing.{Details}
use trace_runtime.Detector.{Published, raised, cleared}
use trace_runtime.Detector.Keys.{Key}
use trace_runtime.Api.{World, Reply}
use trace_runtime.Api.Operator.{guarded}

pub record SseEvent : Type 0 where
  pub event_id : String
  pub event_type : String
  pub trace_id : String
  pub task_id : String
  pub timestamp : ℕ
  pub source : String
  pub severity : String
  pub status : String
  pub healing_event_id : String
  pub details : Option Details

-- The event of emit, and that of resolve, whose details name the key.
unfoldable pub event_of : (Key → Details) → Published → SseEvent
event_of resolved_details (raised event_type severity id details) = record {
  event_id = "";
  event_type = text_append "healing." event_type;
  trace_id = "";
  task_id = "";
  timestamp = 0;
  source = "";
  severity = severity;
  status = "active";
  healing_event_id = id;
  details = some details;
}
event_of resolved_details (cleared event_type severity id key) = record {
  event_id = "";
  event_type = text_append "healing." (text_append event_type ".resolved");
  trace_id = "";
  task_id = "";
  timestamp = 0;
  source = "";
  severity = severity;
  status = "resolved";
  healing_event_id = id;
  details = some (resolved_details key);
}

-- A request: its body, before JSON, and its headers.
pub record Request : Type 0 where
  pub url : String
  pub headers : List (String × String)
  pub body : SseEvent

abbrev token_header : String → List (String × String)
token_header token = if token == "" then [] else ("X-Internal-Token", token) ∷ []

unfoldable pub request : (url token new_id : String) (now : ℕ) → SseEvent → Request
request url token new_id now ev = record {
  url = url;
  headers = ("Content-Type", "application/json") ∷ token_header token;
  body = record ev { event_id = new_id; timestamp = now; source = "watchdog" };
}

-- The error of Publish: `answer` is none where the request fails, else the status.
unfoldable pub publish : (answer : Option ℕ) → Option String
unfolding decimal
publish none = some "sse publish"
publish (some status) =
    if leb 400 status then some (text_append "sse publish returned " (decimal status)) else none

-- http.Header.Get: the empty text where there is no such header.
abbrev pub header : String → List (String × String) → String
header key [] = ""
header key ((k, v) ∷ headers) = if k == key then v else header key headers

-- The token check of the API lets the watchdog's events through where both have the same token, also if it is empty.
pub request-Admitted :
    (url token new_id : String) (now : ℕ) (ev : SseEvent) (handler : World → Reply × World)
    (w : World)
    → guarded token (header "X-Internal-Token" (request url token new_id now ev).headers) handler w
      ≡ handler w
unfolding guarded request
request-Admitted url token new_id now ev handler w = elim (Bool-cases (token == "")) [
  | inl y ↦ rw y refl
  | inr n ↦ rw (n, eq_refl token) refl
]
