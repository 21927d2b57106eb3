-- ===== src/ChaosApi/Lifecycle.antt =====
-- The life of a request, from its trigger to its end.
use Prim.Native.String.{◌++◌ as text_append}
use trace_runtime.Prelude.{
  ℕ, String, ◌≡◌, refl, subst, ◌∙◌, Bool, true, false, none, some, ◌==◌, eq_iff, eq_refl, arith,
  contains, Bool-cases, inl, inr, string_eq,
}
use trace_runtime.Prelude.Assoc.{get, put, get-put, remove-put}
use trace_runtime.ChaosApi.Ids.{is_valid_report_id}
use trace_runtime.ChaosApi.{
  File, Directory, Disk, ChaosRequest, Env, TriggerRequest, accepted, CancelReply, valid_scenarios,
  command_for, run_id_of, request_of, request_file, trigger, cancel,
}
use trace_runtime.ChaosApi.Status.{
  StatusReply, waiting, queued, plain, reported, read_request, reply_for, resolve_run_status,
  status, resolve_run_status_lem, reported-results, status-valid,
}

empty-invalid : is_valid_report_id "" ≡ false
unfolding is_valid_report_id
empty-invalid = refl

empty-unknown : contains valid_scenarios "" ≡ false
empty-unknown = refl

-- What holds of a text and not of the empty one.
nonempty : (p : String → Bool) (s : String) → p "" ≡ false → p s ≡ true → s == "" ≡ false
nonempty p s e h = elim (Bool-cases (s == "")) [
  | inl same ↦
      let at_empty : p "" ≡ true = subst (λ x. p x ≡ true) ((eq_iff s "").0 same) h in
      absurd (ground (arith, e, at_empty))
  | inr other ↦ other
]

valid-nonempty : (id : String) → is_valid_report_id id ≡ true → id == "" ≡ false
valid-nonempty id v = nonempty is_valid_report_id id empty-invalid v

named-nonempty : (s : String) → contains valid_scenarios s ≡ true → s == "" ≡ false
named-nonempty s v = nonempty (contains valid_scenarios) s empty-unknown v

-- A request that is there, and no report.
module _ (env : Env) (results requests : Directory) (run : String) (entry : File)
    (nonempty_id : (run == "") ≡ false) (valid : is_valid_report_id run ≡ true)
    (silent : reported env run (record { results = results; requests = some requests })
      ≡ none) where
  abbrev before : Disk
  before = record { results = results; requests = some requests }

  abbrev after : Disk
  after = record { results = results; requests = some (put requests run entry) }

  found : request_file after run ≡ some entry
  found = get-put requests run run entry ∙ rw (eq_refl run) refl

  resolved : resolve_run_status env run after ≡ plain queued
  resolved =
      resolve_run_status_lem env run after
      ∙ rw
          (
            reported-results env run results (some (put requests run entry)) (some requests),
            silent,
            found,
          )
          refl

  status-after :
      (now : ℕ) (r : ChaosRequest)
      → read_request env run (some entry) ≡ some r
      → status env now run after ≡ reply_for run r (plain queued)
  status-after now r reads =
      status-valid env now run after nonempty_id valid ∙ rw (found, reads, resolved) refl

  status-before :
      (now : ℕ)
      → get requests run ≡ none
      → status env now run before ≡ StatusReply.refused 404 "run not found"
  status-before now new =
      status-valid env now run before nonempty_id valid
      ∙ rw (resolve_run_status_lem env run before, silent, new) refl

  cancel-after :
      get requests run ≡ none
      → env.removes run ≡ true
      → cancel env run after ≡ (CancelReply.cancelled run, before)
  unfolding cancel
  cancel-after new removes = rw (valid, found, removes, remove-put requests run entry new) refl

-- The file that Trigger writes.
abbrev written : Env → ℕ → TriggerRequest → File
written env now req = record { modified = now; body = env.print_request (request_of env now req) }

abbrev pub queue_with : Directory → Directory → Env → ℕ → TriggerRequest → Disk
queue_with results requests env now req = record {
  results = results;
  requests = some (put requests (run_id_of env now req.scenario) (written env now req));
}

trigger-accepted :
    (env : Env) (results requests : Directory) (now : ℕ) (req : TriggerRequest)
    → contains valid_scenarios req.scenario ≡ true
    → env.writes ≡ true
    → trigger env now (some req) (record { results = results; requests = some requests }) ≡ (
      accepted
          (run_id_of env now req.scenario)
          req.scenario
          (command_for req.scenario)
          (text_append "/api/chaos/status?run_id=" (run_id_of env now req.scenario)),
      queue_with results requests env now req,
    )
unfolding trigger
trigger-accepted env results requests now req known writes = rw (known, writes) refl

reply_for-queued :
    (env : Env) (now : ℕ) (req : TriggerRequest)
    → contains valid_scenarios req.scenario ≡ true
    → reply_for (run_id_of env now req.scenario) (request_of env now req) (plain queued)
      ≡ waiting
          (run_id_of env now req.scenario)
          queued
          req.scenario
          (command_for req.scenario)
          (env.rfc3339 now)
reply_for-queued env now req known = rw (named-nonempty req.scenario known) refl

-- Given that the file system does what it is asked to, that JSON decodes what it has encoded, that the run id is a valid one, that no request has it and that no report is about it: Status does not know the run; a Trigger of a known scenario is accepted with this run id, and makes it queued, with its scenario, command and time; and a Cancel then succeeds and leaves both directories as they were before.
pub trigger-cancel :
    (env : Env) (results requests : Directory) (now then_ : ℕ) (req : TriggerRequest)
    → contains valid_scenarios req.scenario ≡ true
    → env.writes ≡ true
    → env.reads (run_id_of env now req.scenario) ≡ true
    → env.removes (run_id_of env now req.scenario) ≡ true
    → env.parse_request (env.print_request (request_of env now req)) ≡ some (request_of env now req)
    → is_valid_report_id (run_id_of env now req.scenario) ≡ true
    → get requests (run_id_of env now req.scenario) ≡ none
    → reported env
        (run_id_of env now req.scenario)
        (record { results = results; requests = some requests })
      ≡ none
    → (status env now
          (run_id_of env now req.scenario)
          (record { results = results; requests = some requests })
        ≡ StatusReply.refused 404 "run not found")
      × (trigger env now (some req) (record { results = results; requests = some requests }) ≡ (
        accepted
            (run_id_of env now req.scenario)
            req.scenario
            (command_for req.scenario)
            (text_append "/api/chaos/status?run_id=" (run_id_of env now req.scenario)),
        queue_with results requests env now req,
      ))
      × (status env then_ (run_id_of env now req.scenario) (queue_with results requests env now req)
          ≡ waiting
              (run_id_of env now req.scenario)
              queued
              req.scenario
              (command_for req.scenario)
              (env.rfc3339 now))
      × (cancel env (run_id_of env now req.scenario) (queue_with results requests env now req) ≡ (
        CancelReply.cancelled (run_id_of env now req.scenario),
        record { results = results; requests = some requests },
      ))
trigger-cancel env results requests now then_ req known writes reads removes parses valid new
      silent =
    let run = run_id_of env now req.scenario in
    let nonempty_id = valid-nonempty run valid in
    (
      status-before env results requests run (written env now req) nonempty_id valid silent now new,
      trigger-accepted env results requests now req known writes,
      status-after env results requests run (written env now req) nonempty_id valid silent then_
            (request_of env now req) (rw (reads, parses) refl)
          ∙ reply_for-queued env now req known,
      cancel-after env results requests run (written env now req) nonempty_id valid silent new
          removes,
    )
