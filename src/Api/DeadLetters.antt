-- ===== src/Api/DeadLetters.antt =====
-- What an operator sees of the dead-letter queue: ListMessages and Stats of services/api/internal/handlers/dlq.go, with
-- GetTaskStatus of services/api/internal/db/dlq.go. SQS is given by its answers; a count that is no number is 0.
use trace_runtime.Prelude.{
  ℕ, String, Bool, true, false, Option, none, some, List, [], ◌∷◌, map, string_eq,
}
use trace_runtime.Prelude.Assoc.{get}
use trace_runtime.Tasks.{TaskRow, find}
use trace_runtime.Tasks
use trace_runtime.Tasks.Listing.{status_text}

-- A message of SQS: `body` as JSON decodes it, no entries if it does not.
pub record SqsMessage : Type 0 where
  pub message_id : String
  pub receipt_handle : String
  pub text : String
  pub body : List (String × String)
  pub attributes : List (String × String)
  pub message_attributes : List (String × Option String)

pub record DlqMessage : Type 0 where
  pub message_id : String
  pub receipt_handle : String
  pub task_id : String
  pub trace_id : String
  pub payload : String
  pub receive_count : String
  pub first_received : String
  pub sent_at : String
  pub task_status : String
  pub error_message : String
  pub message_body : String
  pub message_attrs : List (String × String)

abbrev or_empty : Option String → String
or_empty none = ""
or_empty (some s) = s

abbrev of_row : Option TaskRow → String × String
of_row none = ("", "")
of_row (some r) = (status_text r.status, or_empty r.error_message)

-- GetTaskStatus with its error left aside; `answers` is false if the query fails, as on an id that is no UUID.
unfoldable pub get_task_status : Bool → String → Tasks.Table → String × String
unfolding find
get_task_status true id t = of_row (find id t)
get_task_status false id t = ("", "")

abbrev with_text : List (String × Option String) → List (String × String)
with_text [] = []
with_text ((k, none) ∷ attrs) = with_text attrs
with_text ((k, some v) ∷ attrs) = (k, v) ∷ with_text attrs

unfoldable pub dlq_message : (String → Bool) → Tasks.Table → SqsMessage → DlqMessage
unfolding get_task_status get
dlq_message answers t msg =
    let id = or_empty (get msg.body "task_id") in
    let (status, error) = get_task_status (answers id) id t in
    record {
      message_id = msg.message_id;
      receipt_handle = msg.receipt_handle;
      task_id = id;
      trace_id = or_empty (get msg.body "trace_id");
      payload = or_empty (get msg.body "payload");
      receive_count = or_empty (get msg.attributes "ApproximateReceiveCount");
      first_received = or_empty (get msg.attributes "ApproximateFirstReceiveTimestamp");
      sent_at = or_empty (get msg.attributes "SentTimestamp");
      task_status = status;
      error_message = error;
      message_body = msg.text;
      message_attrs = with_text msg.message_attributes;
    }

pub record Listed : Type 0 where
  pub messages : List DlqMessage
  pub approximate_count : ℕ

-- The messages received, or an error; the receipts of those that are made visible again, and the answer,
-- which is `none` for an internal error.
unfoldable pub list_messages :
    Option (List SqsMessage)
    → (String → Bool)
    → (count : ℕ) → Tasks.Table
    → List String × Option Listed
unfolding dlq_message
list_messages none answers count t = ([], none)
list_messages (some received) answers count t = (
  map (λ (m : SqsMessage). m.receipt_handle) received,
  some (record { messages = map (dlq_message answers t) received; approximate_count = count }),
)

-- Stats: the two counts, if they are answered.
pub record DlqStats : Type 0 where
  pub approximate_messages : ℕ
  pub approximate_not_visible : ℕ

abbrev number : Option ℕ → ℕ
number none = 0
number (some n) = n

unfoldable pub stats : Option (Option ℕ × Option ℕ) → Option DlqStats
stats none = none
stats (some (visible, hidden)) =
    some (record { approximate_messages = number visible; approximate_not_visible = number hidden })
