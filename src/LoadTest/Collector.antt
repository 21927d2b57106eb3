-- ===== src/LoadTest/Collector.antt =====
-- cmd/loadtest/collector.go: collectResults waits until the submitted tasks have come to an end, or until
-- its deadline, and then measures them. Times are microseconds. A float of the source is a whole number or,
-- for a mean, a fraction that is not reduced. An element of a list of rounds is one turn of the loop, that
-- is, one time that it finds the deadline not yet passed; the end of the list is the deadline.
use mathlib.Core.List.{foldr}
use trace_runtime.Prelude.Assoc.{get, put}
use trace_runtime.Prelude.{
  ℕ, ◌+◌, ◌-◌, ◌/◌, String, Bool, true, false, not, ◌&&◌, ◌⊎◌, inl, inr, Option, none, some, List,
  [], ◌∷◌, ◌++◌, map, length, ◌==◌, ltb, is_some, if◌then◌else◌, select, string_eq,
}
use trace_runtime.Tasks.{Status}
use trace_runtime.LoadTest.Buckets.{LatencyBucket, compute_bucket}

-- What the sender knows of a task (sender.go). `error` is empty if the API has answered 201.
pub record TaskResult : Type 0 where
  pub task_id : String
  pub trace_id : String
  pub submit_at : ℕ
  pub latency : ℕ
  pub error : Option String

pub record TaskTimestamps : Type 0 where
  pub task_id : String
  pub status : Status
  pub created_at : ℕ
  pub processing_started_at : Option ℕ
  pub completed_at : Option ℕ
  pub prompt_tokens : ℕ
  pub completion_tokens : ℕ
  pub tokens_per_second : ℕ
  pub model : String

pub record Fraction : Type 0 where
  pub num : ℕ
  pub den : ℕ

pub record TokenMetricsSummary : Type 0 where
  pub total_prompt_tokens : ℕ
  pub total_completion_tokens : ℕ
  pub total_tokens : ℕ
  pub avg_tokens_per_second : Fraction
  pub tokens_per_second : Option LatencyBucket
  pub output_tokens : Option LatencyBucket
  pub model : String

pub record CollectedResults : Type 0 where
  pub tasks_completed : ℕ
  pub tasks_failed : ℕ
  pub negative_durations : ℕ
  pub api_request : Option LatencyBucket
  pub submit_to_proc : Option LatencyBucket
  pub processing : Option LatencyBucket
  pub end_to_end : Option LatencyBucket
  pub token_metrics : TokenMetricsSummary

pub data CollectError : Type 0 where
  no_pool nothing_submitted context_done query_failed : CollectError

-- What a turn of the loop meets.
pub data Round : Type 0 where
  cancelled : Round
  broken : Round
  answered : List TaskTimestamps → Round

abbrev is_empty : String → Bool
is_empty s = s == ""

abbrev pub was_submitted : TaskResult → Bool
was_submitted s = not (is_some s.error) && not (is_empty s.task_id)

abbrev pub submitted : List TaskResult → List TaskResult
submitted = select was_submitted

abbrev latency_into : List (String × ℕ) → List TaskResult → List (String × ℕ)
latency_into m [] = m
latency_into m (s ∷ ss) = latency_into (put m s.task_id s.latency) ss

unfoldable pub api_latencies : List TaskResult → List (String × ℕ)
api_latencies submissions = latency_into [] (submitted submissions)

abbrev pub is_open : Status → Bool
is_open Status.pending = true
is_open Status.processing = true
is_open Status.completed = false
is_open Status.failed = false

unfoldable pub all_done : List TaskTimestamps → Bool
all_done [] = true
all_done (t ∷ ts) = if is_open t.status then false else all_done ts

-- The loop, with the answer that it has seen last.
unfoldable pub wait : List Round → List TaskTimestamps → CollectError ⊎ List TaskTimestamps
wait [] timestamps = inr timestamps
wait (cancelled ∷ rounds) timestamps = inl context_done
wait (broken ∷ rounds) timestamps = inl query_failed
wait (answered rows ∷ rounds) timestamps = if all_done rows then inr rows else wait rounds rows

unfoldable pub count : (TaskTimestamps → Bool) → List TaskTimestamps → ℕ
count p rows = length (select p rows)

abbrev pub is_completed : TaskTimestamps → Bool
is_completed t = elim (t.status) [ Status.completed ↦ true | _ ↦ false ]

abbrev pub is_failed : TaskTimestamps → Bool
is_failed t = elim (t.status) [ Status.failed ↦ true | _ ↦ false ]

-- The differences of two columns, where both have a value: true, and nothing, if it is negative.
abbrev elapsed : ℕ → ℕ → Bool × ℕ
elapsed from to = (ltb to from, to - from)

abbrev pub between : Option ℕ → Option ℕ → List (Bool × ℕ)
between (some from) (some to) = elapsed from to ∷ []
between _ _ = []

abbrev pub gather : (TaskTimestamps → List (Bool × ℕ)) → List TaskTimestamps → List (Bool × ℕ)
gather f [] = []
gather f (t ∷ ts) = f t ++ gather f ts

abbrev pub queue_wait : TaskTimestamps → List (Bool × ℕ)
queue_wait t = between (some t.created_at) t.processing_started_at

abbrev pub processing_time : TaskTimestamps → List (Bool × ℕ)
processing_time t = between t.processing_started_at t.completed_at

abbrev pub end_to_end_time : TaskTimestamps → List (Bool × ℕ)
end_to_end_time t = between (some t.created_at) t.completed_at

unfoldable pub negatives : (TaskTimestamps → List (Bool × ℕ)) → List TaskTimestamps → ℕ
negatives f rows = length (select (λ d. d.0) (gather f rows))

-- Duration.Milliseconds of a difference that is at least 0.
unfoldable pub milliseconds : (TaskTimestamps → List (Bool × ℕ)) → List TaskTimestamps → List ℕ
milliseconds f rows = map (λ d. d.1 / 1000) (gather f rows)

abbrev look_up : List (String × ℕ) → List TaskTimestamps → List ℕ
look_up m [] = []
look_up m (t ∷ ts) = elim (get m t.task_id) [
  | none ↦ look_up m ts
  | some latency ↦ latency / 1000 ∷ look_up m ts
]

abbrev sum : List ℕ → ℕ
sum = foldr (λ x s. x + s) 0

abbrev positive : List ℕ → List ℕ
positive = select (ltb 0)

abbrev mean : List ℕ → Fraction
mean [] = record { num = 0; den = 1 }
mean (x ∷ xs) = record { num = sum (x ∷ xs); den = length (x ∷ xs) }

abbrev occurrences : Option ℕ → ℕ
occurrences none = 0
occurrences (some n) = n

abbrev count_models : List (String × ℕ) → List TaskTimestamps → List (String × ℕ)
count_models m [] = m
count_models m (t ∷ ts) =
    count_models (if is_empty t.model then m else put m t.model (occurrences (get m t.model) + 1))
      ts

abbrev best : String × ℕ → List (String × ℕ) → String
best b [] = b.0
best b (e ∷ es) = best (if ltb b.1 e.1 then e else b) es

-- `range` is the order in which Go goes through a map.
unfoldable pub token_metrics :
    (List (String × ℕ) → List (String × ℕ)) → List TaskTimestamps → TokenMetricsSummary
token_metrics range rows =
    let done = select is_completed rows in
    let prompt = sum (map (λ t. t.prompt_tokens) done) in
    let completion = sum (map (λ t. t.completion_tokens) done) in
    let tps = positive (map (λ t. t.tokens_per_second) done) in
    record {
      total_prompt_tokens = prompt;
      total_completion_tokens = completion;
      total_tokens = prompt + completion;
      avg_tokens_per_second = mean tps;
      tokens_per_second = compute_bucket tps;
      output_tokens = compute_bucket (positive (map (λ t. t.completion_tokens) done));
      model = best ("", 0) (range (count_models [] done));
    }

unfoldable pub measure :
    (List (String × ℕ) → List (String × ℕ))
    → List TaskResult
    → List TaskTimestamps
    → CollectedResults
measure range submissions rows = record {
  tasks_completed = count is_completed rows;
  tasks_failed = count is_failed rows;
  negative_durations =
      negatives queue_wait rows + negatives processing_time rows + negatives end_to_end_time rows;
  api_request = compute_bucket (look_up (api_latencies submissions) rows);
  submit_to_proc = compute_bucket (milliseconds queue_wait rows);
  processing = compute_bucket (milliseconds processing_time rows);
  end_to_end = compute_bucket (milliseconds end_to_end_time rows);
  token_metrics = token_metrics range rows;
}

abbrev then_measure :
    (List (String × ℕ) → List (String × ℕ))
    → List TaskResult
    → CollectError ⊎ List TaskTimestamps
    → CollectError ⊎ CollectedResults
then_measure range submissions (inl e) = inl e
then_measure range submissions (inr rows) = inr (measure range submissions rows)

abbrev unless_nothing : {A : Type 0} → List TaskResult → CollectError ⊎ A → CollectError ⊎ A
unless_nothing [] a = inl nothing_submitted
unless_nothing (_ ∷ _) a = a

-- `pool`: whether pgxpool.New succeeds.
unfoldable pub collect_results :
    (List (String × ℕ) → List (String × ℕ))
    → Bool
    → List TaskResult
    → List Round
    → CollectError ⊎ CollectedResults
collect_results range pool submissions rounds =
    if pool
    then unless_nothing (submitted submissions) (then_measure range submissions (wait rounds []))
    else inl no_pool
