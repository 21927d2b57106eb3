-- ===== src/ChaosApi/Requeued.antt =====
-- What the removal of a report does to the status of its run.
use Prim.Native.String.{◌++◌ as text_append}
use trace_runtime.Prelude.{
  ℕ, ◌+◌, String, ◌≡◌, refl, ◌∙◌, true, false, ◌&&◌, none, some, List, [], ◌∷◌, ◌==◌, leb, if_ind,
  if_same, ◌-◌, eq_refl, string_eq,
}
use trace_runtime.Prelude.Assoc.{get, remove, get-remove}
use trace_runtime.ChaosApi.Ids.{is_valid_report_id}
use trace_runtime.ChaosApi.{File, Directory, SuiteFile, ChaosRequest, Env}
use trace_runtime.ChaosApi.Status.{
  queued, plain, judged, suite_name, glob, scan, read_request, reply_for, status,
  resolve_run_status_lem, reported_lem, status-valid,
}
use trace_runtime.ChaosApi.Reports.{
  deleted, remove_near, remove_scenarios, scenarios_of, delete_report,
}

get-remove-none : (d : Directory) (name k : String) → get d k ≡ none → get (remove d name) k ≡ none
get-remove-none d name k h = get-remove d name k ∙ rw h (if_same (name == k) none)

module _ (env : Env) (at : ℕ) (k : String) where
  abbrev Gone : ℕ × Directory → Type 0
  Gone p = get p.1 k ≡ none

  remove_near-Gone :
      (matches : Directory) (p : ℕ × Directory) → Gone p → Gone (remove_near env at matches p)
  remove_near-Gone [] p h = h
  remove_near-Gone ((name, f) ∷ matches) p h = remove_near-Gone matches _ (
      if_ind Gone (leb ((f.modified - at) + (at - f.modified)) 3600000000 && env.removes name)
        (get-remove-none p.1 name k h) h)

  remove_scenarios-Gone :
      (names : List String) (p : ℕ × Directory) → Gone p → Gone (remove_scenarios env at names p)
  remove_scenarios-Gone [] p h = h
  remove_scenarios-Gone (s ∷ names) p h = remove_scenarios-Gone names _ (
      if_ind Gone (s == "") h
        (remove_near-Gone (glob (text_append "chaos-" (text_append (env.slug s) "-")) p.1) p h))

get-removed : (d : Directory) (k : String) → get (remove d k) k ≡ none
get-removed d k = get-remove d k k ∙ rw (eq_refl k) refl

-- The directory of results after the report of a suite has been removed.
abbrev pub left : Env → String → File → Directory → ℕ × Directory
left env name f results =
    remove_scenarios env f.modified (scenarios_of (env.parse_suite f.body)) (1, remove results name)

delete_report-left :
    (env : Env) (results requests : Directory) (name : String) (f : File)
    → is_valid_report_id name ≡ true
    → env.reads name ≡ true
    → env.removes name ≡ true
    → get results name ≡ some f
    → delete_report env name (record { results = results; requests = some requests }) ≡ (
      deleted name (left env name f results).0,
      record { results = (left env name f results).1; requests = some requests },
    )
unfolding delete_report
delete_report-left env results requests name f valid reads removes there =
    rw (valid, there, reads, removes) refl

-- Given that the file system does what it is asked to, that the ids are valid, and that no other report names the run: a run with a report is finished for Status; once this report has been deleted with success, Status says again that the run is queued, from the request that is still there.
pub deleted-queued :
    (env : Env) (results requests : Directory) (now : ℕ) (run : String) (f g : File)
    (suite : SuiteFile) (req : ChaosRequest)
    → (run == "") ≡ false
    → is_valid_report_id run ≡ true
    → is_valid_report_id (suite_name run) ≡ true
    → env.reads (suite_name run) ≡ true
    → env.removes (suite_name run) ≡ true
    → get results (suite_name run) ≡ some f
    → env.parse_suite f.body ≡ some suite
    → get requests run ≡ some g
    → read_request env run (some g) ≡ some req
    → scan env run (glob "chaos-suite-" (left env (suite_name run) f results).1) ≡ none
    → (status env now run (record { results = results; requests = some requests })
        ≡ reply_for run req (judged (suite_name run) suite))
      × (delete_report env (suite_name run) (record { results = results; requests = some requests })
          ≡ (
            deleted (suite_name run) (left env (suite_name run) f results).0,
            record { results = (left env (suite_name run) f results).1; requests = some requests },
          ))
      × (status env now run
            (record { results = (left env (suite_name run) f results).1; requests = some requests })
          ≡ reply_for run req (plain queued))
deleted-queued env results requests now run f g suite req nonempty valid valid_name reads removes
      there parses waiting decodes alone =
    let gone =
      remove_scenarios-Gone env f.modified (suite_name run) (scenarios_of (env.parse_suite f.body))
        (1, remove results (suite_name run)) (get-removed results (suite_name run)) in
    (
      status-valid env now run (record { results = results; requests = some requests }) nonempty
            valid
          ∙ rw
              (
                resolve_run_status_lem env run
                    (record { results = results; requests = some requests }),
                reported_lem env run (record { results = results; requests = some requests }),
                there,
                reads,
                parses,
                waiting,
                decodes,
              )
              refl,
      delete_report-left env results requests (suite_name run) f valid_name reads removes there,
      status-valid env now run
            (record { results = (left env (suite_name run) f results).1; requests = some requests })
            nonempty valid
          ∙ rw
              (
                resolve_run_status_lem env run (record {
                  results = (left env (suite_name run) f results).1;
                  requests = some requests;
                }),
                reported_lem env run (record {
                  results = (left env (suite_name run) f results).1;
                  requests = some requests;
                }),
                gone,
                alone,
                waiting,
                decodes,
              )
              refl,
    )
