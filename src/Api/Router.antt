-- ===== src/Api/Router.antt =====
-- NewRouter and corsMiddleware of services/api/internal/http/router.go. Which of the routes a request goes to is up to
-- chi, and given; so are the handlers, which the other files of Api and the listings model.
use text.Mathlib.Text.{starts_with}
use trace_runtime.Prelude.{
  ◌≡◌, refl, sym, subst, ◌∙◌, String, Bool, true, false, not, ◌&&◌, ◌||◌, ◌⊎◌, inl, inr, List, [],
  ◌∷◌, ◌++◌, contains, ◌==◌, if◌then◌else◌, All,
}
use trace_runtime.Api.{World, Reply, error}
use trace_runtime.Api.Operator.{guarded}

pub data Method : Type 0 where
  get post delete options : Method

pub data Handler : Type 0 where
  health metrics events create_task preflight : Handler
  internal_events recent_events task_list operations_summary capacity runtime_metrics traces :
      Handler
  alerts acknowledge alert_stats replay : Handler
  dlq_messages dlq_retry dlq_delete dlq_purge dlq_stats : Handler
  chaos_reports chaos_report chaos_delete chaos_trigger chaos_status chaos_cancel : Handler

-- `behind_token` marks the handlers that tokenMw wraps.
pub record Route : Type 0 where
  pub method : Method
  pub pattern : String
  pub behind_token : Bool
  pub handler : Handler

abbrev free : Method → String → Handler → Route
free method pattern handler = record {
  method = method;
  pattern = pattern;
  behind_token = false;
  handler = handler;
}

abbrev token_mw : Method → String → Handler → Route
token_mw method pattern handler = record {
  method = method;
  pattern = pattern;
  behind_token = true;
  handler = handler;
}

abbrev basic_routes : List Route
basic_routes =
    free get "/health" health
    ∷ free get "/metrics" metrics
    ∷ free get "/events" events
    ∷ free post "/tasks" create_task
    ∷ free options "/tasks" preflight
    ∷ token_mw post "/internal/events" internal_events
    ∷ token_mw get "/api/events/recent" recent_events
    ∷ token_mw get "/api/tasks/list" task_list
    ∷ token_mw get "/api/operations/summary" operations_summary
    ∷ token_mw get "/api/capacity/latest" capacity
    ∷ token_mw get "/api/metrics/runtime" runtime_metrics
    ∷ token_mw get "/api/traces/{traceID}" traces
    ∷ token_mw get "/api/alerts" alerts
    ∷ token_mw post "/api/alerts/{id}/acknowledge" acknowledge
    ∷ free options "/api/alerts/{id}/acknowledge" preflight
    ∷ token_mw get "/api/alerts/stats" alert_stats
    ∷ token_mw post "/api/tasks/{taskID}/replay" replay
    ∷ free options "/api/tasks/{taskID}/replay" preflight
    ∷ []

-- If there is a dead-letter queue.
abbrev dlq_routes : Bool → List Route
dlq_routes false = []
dlq_routes true =
    token_mw get "/api/dlq/messages" dlq_messages
    ∷ token_mw post "/api/dlq/messages/{messageID}/retry" dlq_retry
    ∷ token_mw delete "/api/dlq/messages/{messageID}" dlq_delete
    ∷ token_mw post "/api/dlq/purge" dlq_purge
    ∷ token_mw get "/api/dlq/stats" dlq_stats
    ∷ free options "/api/dlq/messages/{messageID}/retry" preflight
    ∷ free options "/api/dlq/messages/{messageID}" preflight
    ∷ free options "/api/dlq/purge" preflight
    ∷ []

abbrev chaos_routes : List Route
chaos_routes =
    token_mw get "/api/chaos/reports" chaos_reports
    ∷ token_mw get "/api/chaos/reports/{reportId}" chaos_report
    ∷ token_mw delete "/api/chaos/reports/{reportId}" chaos_delete
    ∷ free options "/api/chaos/reports/{reportId}" preflight
    ∷ token_mw post "/api/chaos/trigger" chaos_trigger
    ∷ free options "/api/chaos/trigger" preflight
    ∷ token_mw get "/api/chaos/status" chaos_status
    ∷ token_mw delete "/api/chaos/requests/{runId}" chaos_cancel
    ∷ free options "/api/chaos/requests/{runId}" preflight
    ∷ []

unfoldable pub routes : Bool → List Route
routes has_dlq = basic_routes ++ (dlq_routes has_dlq ++ chaos_routes)

-- The headers that corsMiddleware sets.
unfoldable pub cors_headers :
    (allowed_origins : List String) (origin : String) → List (String × String)
cors_headers allowed_origins origin =
    (if contains allowed_origins origin then ("Access-Control-Allow-Origin", origin) ∷ [] else [])
    ++ ("Access-Control-Allow-Methods", "GET, POST, DELETE, OPTIONS")
      ∷ ("Access-Control-Allow-Headers", "Content-Type, X-Internal-Token")
      ∷ ("X-Content-Type-Options", "nosniff")
      ∷ ("X-Frame-Options", "DENY")
      ∷ ("Referrer-Policy", "no-referrer")
      ∷ ("Content-Security-Policy", "default-src 'none'; frame-ancestors 'none'")
      ∷ []

-- What chi does with a table of routes: the route that it picks for a method and a path, or its own answer (404 or 405)
-- where there is none.
abbrev pub Mux : Type 0
Mux = List Route → Method → String → Reply ⊎ Route

module _ (handle : Handler → World → Reply × World) (token header : String) where
  abbrev dispatch : Reply ⊎ Route → World → Reply × World
  dispatch (inl missing) w = (missing, w)
  dispatch (inr r) w =
      if r.behind_token then guarded token header (handle r.handler) w else handle r.handler w

  -- The request behind the middlewares that are not for a route: the request id, the headers, the span, the rate limit.
  unfoldable pub serve : Mux → (has_dlq : Bool) → Method → String → World → Reply × World
  unfolding routes guarded
  serve mux has_dlq method path w = dispatch (mux (routes has_dlq) method path) w

abbrev pub Among : Route → List Route → Type 0
Among r [] = ⊥
Among r (x ∷ xs) = (r ≡ x) ⊎ Among r xs

abbrev is_options : Method → Bool
is_options options = true
is_options _ = false

-- The paths under /api/ and /internal/, but for a preflight.
abbrev pub is_internal : Route → Bool
is_internal r =
    (starts_with r.pattern "/api/" || starts_with r.pattern "/internal/")
    && not (is_options r.method)

abbrev Marked : Route → Type 0
Marked r = r.behind_token ≡ is_internal r

routes-Marked : (has_dlq : Bool) → All Marked (routes has_dlq)
unfolding routes
routes-Marked true = search (tt)
routes-Marked false = search (tt)

Marked-Among : (r : Route) (rs : List Route) → Among r rs → All Marked rs → Marked r
Marked-Among r [] m h = absurd m
Marked-Among r (x ∷ xs) (inl e) h = subst Marked (sym e) h.0
Marked-Among r (x ∷ xs) (inr m) h = Marked-Among r xs m h.1

-- Where a token is set and the request does not carry it: a request that chi sends to a route under /api/ or /internal/, other than a preflight, is answered with 403 and changes nothing. It is assumed of chi that the route it picks is one of those that it was given.
pub serve_forbidden :
    (handle : Handler → World → Reply × World) (token header : String) (mux : Mux) (has_dlq : Bool)
    (method : Method) (path : String) (r : Route) (w : World)
    → ((rs : List Route) (m : Method) (p : String) (q : Route) → mux rs m p ≡ inr q → Among q rs)
    → mux (routes has_dlq) method path ≡ inr r
    → is_internal r ≡ true
    → (token == "") ≡ false
    → (header == token) ≡ false
    → serve handle token header mux has_dlq method path w ≡ (error 403 "forbidden", w)
unfolding serve guarded
serve_forbidden handle token header mux has_dlq method path r w picks picked internal set wrong =
    let behind : r.behind_token ≡ true =
      Marked-Among r (routes has_dlq) (picks (routes has_dlq) method path r picked)
        (routes-Marked has_dlq)
      ∙ internal in
    rw (picked, behind, set, wrong) refl
