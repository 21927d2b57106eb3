-- ===== src/Alerts/Hidden.antt =====
-- A chaos run that is interrupted, and the alerts.
use trace_runtime.Prelude.{
  ◌∙◌, Bool, ltb, ◌||◌, ℕ, ◌≤◌, String, ◌==◌, ◌≡◌, refl, sym, subst, true, false, ◌&&◌, none, some,
  List, [], ◌∷◌, arith, select, Bool-cases, inl, inr,
}
use trace_runtime.Tasks.{up, down}
use trace_runtime.Healing.{HealingEvent, Table}
use trace_runtime.Chaos.{ChaosRun, Runs, to_running}
use trace_runtime.Chaos.Runner.{Scenario, World}
use trace_runtime.Chaos.Suites.{
  Config, Outside, link, filter_scenarios, run_all, run_suite, unbounded,
}
use trace_runtime.Chaos.Recorded.{find_run, run_suite-Interrupted}
use trace_runtime.Alerts.{AlertListParams, covers, any_covers, before, shown, list_alerts}

first :
    (id : String) (r : ChaosRun) (rs : Runs) (row : ChaosRun)
    → r.id == id ≡ true
    → find_run id (r ∷ rs) ≡ some row
    → r ≡ row
unfolding find_run
first id r rs row e h = ground (arith, e, h)

later :
    (id : String) (r : ChaosRun) (rs : Runs) (row : ChaosRun)
    → r.id == id ≡ false
    → find_run id (r ∷ rs) ≡ some row
    → find_run id rs ≡ some row
unfolding find_run
later id r rs row e h = ground (arith, e, h)

found-covers :
    (id : String) (runs : Runs) (row : ChaosRun) (now at : ℕ)
    → find_run id runs ≡ some row
    → covers now at row ≡ true
    → any_covers now at runs ≡ true
unfolding find_run
found-covers id [] row now at h c = absurd (ground (arith, h))
found-covers id (r ∷ rs) row now at h c = elim (Bool-cases (r.id == id)) [
  | inl e ↦ rw (subst (λ x. covers now at x ≡ true) (sym (first id r rs row e h)) c) refl
  | inr e ↦ ground (arith, found-covers id rs row now at (later id r rs row e h) c)
]

shown-covered :
    (runs : Runs) (now : ℕ) (params : AlertListParams) (e : HealingEvent)
    → any_covers now e.created_at runs ≡ true
    → shown runs now params e ≡ false
unfolding shown
shown-covered runs now params e h = ground (arith, h)

running-covers :
    (row : ChaosRun) (started now at : ℕ)
    → row.completed_at ≡ none
    → started ≤ at
    → at ≤ now
    → covers now at (to_running started row) ≡ true
running-covers row started now at h l m = ground (arith, h, l, m)

-- The event is outside of the time from the start to now.
abbrev pub outside : ℕ → ℕ → HealingEvent → Bool
outside start now e = ltb e.created_at start || ltb now e.created_at

-- What is not shown of a table may as well not be in it.
select-hidden :
    (runs : Runs) (start now : ℕ) (params : AlertListParams) (t : Table)
    → ((e : HealingEvent) → outside start now e ≡ false → shown runs now params e ≡ false)
    → select (λ e. shown runs now params e && before params.cursor e) t
      ≡ select
          (λ e. shown runs now params e && before params.cursor e)
          (select (outside start now) t)
select-hidden runs start now params [] k = refl
select-hidden runs start now params (e ∷ t) k = elim (Bool-cases (outside start now e)) [
  | inl out ↦ rw out (ground (arith, select-hidden runs start now params t k))
  | inr in_ ↦ rw (in_, k e in_) (select-hidden runs start now params t k)
]

link-down :
    {S : Type 0} (w : World S) (out : Outside S) (s : S)
    → w.interrupted s ≡ true
    → link w out s ≡ down
unfolding link
link-down w out s h = rw h refl

-- If SIGINT ends a suite whose run has been set to running, the run is left running, without an end; and as long as its row is as the suite has left it, whatever the rest of the tables of runs and of events has come to be, the API's answer to a listing of alerts, with any filter and cursor, is the one that it would give if the events since the run's start were not in the table of events.
pub interrupted-hides :
    {S : Type 0} (w : World S) (out : Outside S) (cfg : Config) (id : String)
    (scenarios : List (Scenario S)) (runs : Runs) (s : S) (sc : Scenario S)
    (scs : List (Scenario S)) (row : ChaosRun)
    → filter_scenarios w out cfg.scenario scenarios ≡ sc ∷ scs
    → find_run id runs ≡ some row
    → row.completed_at ≡ none
    → link w out s ≡ up
    → w.interrupted (run_all w out (unbounded (w.now s) cfg.global_timeout) (sc ∷ scs) s).1 ≡ true
    → (now : ℕ) (params : AlertListParams) (t : Table) (later_runs : Runs)
    → find_run id later_runs ≡ find_run id (run_suite w out cfg id scenarios runs s).1.0
    → (find_run id (run_suite w out cfg id scenarios runs s).1.0 ≡ some (to_running (w.now s) row))
      × (list_alerts later_runs now params t
          ≡ list_alerts later_runs now params (select (outside (w.now s) now) t))
unfolding list_alerts
interrupted-hides w out cfg id scenarios runs s sc scs row chosen there unended begun stopped now
      params t later_runs same =
    let left =
      run_suite-Interrupted w out cfg id scenarios runs s sc scs chosen row there begun
        (link-down w out _ stopped) in
    let rows = select-hidden later_runs (w.now s) now params t (λ e during.
      shown-covered later_runs now params e (
        found-covers id later_runs (to_running (w.now s) row) now e.created_at (same ∙ left) (
          running-covers row (w.now s) now e.created_at unended (ground (arith, during))
            (ground (arith, during))))) in
    (left, rw rows refl)
