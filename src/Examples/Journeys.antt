-- ===== src/Examples/Journeys.antt =====
-- Tasks on their way from the API to a worker.
use trace_runtime.Prelude.{◌≡◌, refl, none, some, [], ◌∷◌, arith}
use trace_runtime.Tasks.{pending, TaskRow, find, insert_task}
use trace_runtime.Api.{in_memory, create_task, register, hand_over, conclude, publish_task, send}
use trace_runtime.Queue.{enqueue}
use trace_runtime.Prelude.Channel.{try_send}
use trace_runtime.Api.Operator.{retry}
use trace_runtime.Processor.Calls.{unreachable, Message}
use trace_runtime.Journeys.{Attempted, created_task_runs, retried_task_runs}
use trace_runtime.Examples.Tables.{failed_row}
use trace_runtime.Examples.Api.{env, calls, dead_letter}
use trace_runtime.Examples.Api.{world_of as api_world}
use trace_runtime.Examples.Attempts.{config, message, world_env, world_of}

abbrev new_message : Message
new_message = record {
  task_id = "t9";
  trace_id = "def";
  traceparent = "00-def-1-01";
  payload = "hello";
}

created_task_runs_example :
    (r : TaskRow) × (r.input_payload ≡ "hello")
    × Attempted config
        (world_env unreachable)
        new_message
        ""
        "receipt"
        1
        (world_of (create_task (env in_memory) (some "hello") "" (api_world [])).1.tasks)
        refl
        refl
        refl
        r
created_task_runs_example =
    created_task_runs config (world_env unreachable) new_message "" "receipt" 1
      (world_of (create_task (env in_memory) (some "hello") "" (api_world [])).1.tasks) refl refl
      refl (env in_memory) "hello" "" (api_world []) refl refl refl (λ h. absurd (ground arith))
      (unfold find in refl) refl (omega arith)
      (unfold create_task register hand_over conclude publish_task enqueue try_send insert_task
          find in
        refl)
      refl refl

retried_task_runs_example :
    Attempted config
      (world_env unreachable)
      message
      ""
      "receipt"
      3
      (world_of (retry calls "receipt" (some dead_letter) (api_world (failed_row ∷ []))).1.tasks)
      refl
      refl
      refl
      (record failed_row { status = pending; error_message = none; updated_at = 9 })
retried_task_runs_example =
    retried_task_runs config (world_env unreachable) message "" "receipt" 3
      (world_of (retry calls "receipt" (some dead_letter) (api_world (failed_row ∷ []))).1.tasks)
      refl refl refl calls "receipt" dead_letter (api_world (failed_row ∷ [])) failed_row refl
      (unfold find in refl) refl (unfold retry send in refl) refl refl
