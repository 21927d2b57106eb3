-- ===== src/Views/Recent.antt =====
-- The handler of services/api/internal/http/recent_events.go. A `limit` that is no number is `none`; times are
-- not formatted.
use Prim.Native.String.{◌++◌ as text_append}
use trace_runtime.Prelude.{
  ℕ, String, Bool, true, false, Option, none, some, List, map, ltb, if◌then◌else◌,
}
use trace_runtime.Tasks.{TokenMetrics, TaskRow}
use trace_runtime.Tasks
use trace_runtime.Tasks.Listing.{status_text, recent_task_events}

pub record RecentEvent : Type 0 where
  pub event_id : String
  pub event_type : String
  pub task_id : String
  pub trace_id : String
  pub traceparent : String
  pub timestamp : ℕ
  pub source : String
  pub error_reason : String
  pub tokens : TokenMetrics
  pub created_at : ℕ
  pub processing_started_at : Option ℕ
  pub completed_at : Option ℕ

abbrev asked_limit : Option ℕ → ℕ
asked_limit none = 50
asked_limit (some n) = if ltb 0 n then n else 50

abbrev capped : ℕ → ℕ
capped n = if ltb 100 n then 100 else n

abbrev or_else : Option ℕ → ℕ → ℕ
or_else none at = at
or_else (some at) _ = at

abbrev or_empty : Option String → String
or_empty none = ""
or_empty (some s) = s

unfoldable pub recent_event : TaskRow → RecentEvent
recent_event t = record {
  event_id = t.id;
  event_type = text_append "task." (status_text t.status);
  task_id = t.id;
  trace_id = t.trace_id;
  traceparent = "";
  timestamp = or_else t.completed_at t.created_at;
  source = "api";
  error_reason = or_empty t.error_message;
  tokens = t.tokens;
  created_at = t.created_at;
  processing_started_at = t.processing_started_at;
  completed_at = t.completed_at;
}

pub data RecentReply : Type 0 where
  events : List RecentEvent → RecentReply
  error : ℕ → RecentReply

unfoldable pub recent_events : (has_db answers : Bool) → Option ℕ → Tasks.Table → RecentReply
unfolding recent_event recent_task_events
recent_events false answers limit t = error 503
recent_events true false limit t = error 500
recent_events true true limit t =
    events (map recent_event (recent_task_events (capped (asked_limit limit)) t))
