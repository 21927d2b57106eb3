-- ===== src/Chaos/Checker/Stabilized.antt =====
-- What stabilizeSystem leaves behind in the tables.
use text.Mathlib.Text.{starts_with}
use trace_runtime.Prelude.{
  ◌≢◌, ◌⊎◌, true, is_some, none, some, arith, ℕ, String, ◌≡◌, refl, sym, subst, ap, ◌∙◌, false, ltb,
  inl, inr, [], ◌∷◌, map, if◌then◌else◌, All, Bool-cases, if_ind,
}
use Prim.Native.String.{◌++◌ as text_append}
use trace_runtime.Tasks.{Status, pending, processing, completed, failed, TaskRow, Link, up, find}
use trace_runtime.Tasks
use trace_runtime.Healing.{HealingEvent, is_active}
use trace_runtime.Healing
use trace_runtime.Chaos.Waits.{wait_for-keeps}
use trace_runtime.Chaos.Ops.{Ops, seconds, answer_or}
use trace_runtime.Chaos.Helpers.{zero_active_events, wait, stabilize_system}
use trace_runtime.Chaos.Checker.{
  Db, of_chaos, is_stuck, is_abandoned, fail_if, resolve_row, active_healing_events,
  fail_stuck_tasks, fail_abandoned_tasks, resolve_all_active_events, delete_stale_heartbeats,
  with_checker,
}

abbrev pub Inactive : HealingEvent → Type 0
Inactive e = e.status ≢ Healing.active

-- The task is being processed or waits for its first start.
abbrev pub Unsettled : TaskRow → Type 0
Unsettled r = (r.status ≡ processing) ⊎ ((r.status ≡ pending) × (r.processing_started_at ≡ none))

abbrev pub Settled : TaskRow → Type 0
Settled r =
    (r.status ≡ completed)
    ⊎ ((r.status ≡ failed) ⊎ ((r.status ≡ pending) × (is_some r.processing_started_at ≡ true)))

-- What becomes of a row: an unsettled one with this payload fails, and any other stays as it is.
abbrev pub Treated : ℕ → String → TaskRow → TaskRow → Type 0
Treated now reason r s =
    ((starts_with r.input_payload "chaos-" ≡ true)
      × Unsettled r
      × (s ≡ record r {
        status = failed;
        completed_at = some now;
        error_message = some reason;
        updated_at = now;
      }))
    ⊎ (((starts_with r.input_payload "chaos-" ≡ false) ⊎ Settled r) × (s ≡ r))

-- Row by row.
abbrev pub Each : (TaskRow → TaskRow → Type 0) → Tasks.Table → Tasks.Table → Type 0
Each R [] [] = Unit
Each R (r ∷ t) (s ∷ u) = R r s × Each R t u
Each R _ _ = ⊥

map-Inactive : (now : ℕ) (t : Healing.Table) → All Inactive (map (resolve_row now) t)
map-Inactive now [] = tt
map-Inactive now (e ∷ t) = (inactive now e, map-Inactive now t)
  where
    inactive : (now : ℕ) (e : HealingEvent) → Inactive (resolve_row now e)
    inactive now e = elim (Bool-cases (is_active e)) [
      | inl y ↦ rw y (λ h. absurd (ground (arith, h)))
      | inr n ↦ rw n (λ h. absurd (ground (arith, n, h)))
    ]

-- Both statements on a row.
abbrev pub settle : ℕ → ℕ → String → TaskRow → TaskRow
settle now later reason r = fail_if is_abandoned later reason (fail_if is_stuck now reason r)

stuck-Unsettled :
    (r : TaskRow)
    → is_stuck r ≡ true
    → (starts_with r.input_payload "chaos-" ≡ true) × (r.status ≡ processing)
unfolding of_chaos
stuck-Unsettled r h = (ground (arith, h), ground (arith, h))

abandoned-Unsettled :
    (r : TaskRow)
    → is_abandoned r ≡ true
    → (starts_with r.input_payload "chaos-" ≡ true)
      × (r.status ≡ pending)
      × (r.processing_started_at ≡ none)
unfolding of_chaos
abandoned-Unsettled r h = (ground (arith, h), ground (arith, h), ground (arith, h))

others-Settled :
    (r : TaskRow)
    → is_stuck r ≡ false
    → is_abandoned r ≡ false
    → (starts_with r.input_payload "chaos-" ≡ false) ⊎ Settled r
unfolding of_chaos
others-Settled r m a = elim (Bool-cases (starts_with r.input_payload "chaos-")) [
  | inl c ↦ inr (rest r.status refl c)
  | inr n ↦ inl n
]
  where
    rest :
        (status : Status)
        → r.status ≡ status
        → starts_with r.input_payload "chaos-" ≡ true
        → Settled r
    rest completed e c = inl e
    rest failed e c = inr (inl e)
    rest processing e c = absurd (ground (arith, e, c, m))
    rest pending e c = inr (inr (e, ground (arith, e, c, a)))

settle-Treated :
    (now : ℕ) (reason : String) (r : TaskRow) → Treated now reason r (settle now now reason r)
unfolding of_chaos
settle-Treated now reason r = elim (Bool-cases (is_stuck r)) [
  | inl stuck ↦
      let (chaos, status) = stuck-Unsettled r stuck in inl (chaos, inl status, rw stuck refl)
  | inr moving ↦ elim (Bool-cases (is_abandoned r)) [
    | inl left ↦
        let (chaos, status, unstarted) = abandoned-Unsettled r left in
        inl (chaos, inr (status, unstarted), rw (moving, left) refl)
    | inr taken ↦ inr (others-Settled r moving taken, rw (moving, taken) refl)
  ]
]

map-Treated :
    (now : ℕ) (reason : String) (t : Tasks.Table)
    → Each (Treated now reason) t (map (settle now now reason) t)
map-Treated now reason [] = tt
map-Treated now reason (r ∷ t) = (settle-Treated now reason r, map-Treated now reason t)

map-settle :
    (now later : ℕ) (reason : String) (t : Tasks.Table)
    → map (fail_if is_abandoned later reason) (map (fail_if is_stuck now reason) t)
      ≡ map (settle now later reason) t
map-settle now later reason [] = refl
map-settle now later reason (r ∷ t) =
    ap (λ u. settle now later reason r ∷ u) (map-settle now later reason t)

module _ {S : Type 0} (ops : Ops S) (link : S → Link) (answers : (s : S) → link s ≡ up) where
  stuck-tasks :
      (reason : String) (d : Db) (s : S)
      → (fail_stuck_tasks ops link reason (d, s)).1
        ≡ (record d { tasks = map (fail_if is_stuck (ops.now s) reason) d.tasks }, s)
  unfolding fail_stuck_tasks
  stuck-tasks reason d s = rw (answers s) refl

  abandoned-tasks :
      (reason : String) (d : Db) (s : S)
      → (fail_abandoned_tasks ops link reason (d, s)).1
        ≡ (record d { tasks = map (fail_if is_abandoned (ops.now s) reason) d.tasks }, s)
  unfolding fail_abandoned_tasks
  abandoned-tasks reason d s = rw (answers s) refl

  heartbeats-kept :
      (age : ℕ) (w : Db × S)
      → ((delete_stale_heartbeats ops link age w).1.0.tasks ≡ w.0.tasks)
        × ((delete_stale_heartbeats ops link age w).1.0.events ≡ w.0.events)
  unfolding delete_stale_heartbeats
  heartbeats-kept age (d, s) = rw (answers s) (refl, refl)

  events-resolved :
      (w : Db × S)
      → ((resolve_all_active_events ops link w).1.0.tasks ≡ w.0.tasks)
        × All Inactive (resolve_all_active_events ops link w).1.0.events
  unfolding resolve_all_active_events
  events-resolved (d, s) = rw (answers s) (refl, map-Inactive (ops.now s) d.events)

  wait-kept :
      (timeout interval : ℕ) (w : Db × S)
      → (wait
          (with_checker ops link)
          (zero_active_events (with_checker ops link))
          timeout
          interval
          w).1.0
        ≡ w.0
  unfolding with_checker active_healing_events
  wait-kept timeout interval w =
      wait_for-keeps (λ (x : Db × S). x.0 ≡ w.0) _ _ (λ x k. rw (answers x.1) k) _ w refl

  -- The tables before the wait, by the steps that lead to them.
  abbrev purged : Db × S → Db × S
  purged w =
      let out = ops.dlq_depth w.1 in
      if ltb 0 (answer_or 0 out.0) then (w.0, (ops.purge_dlq out.1).1) else (w.0, out.1)

  purged-kept : (w : Db × S) → (purged w).0 ≡ w.0
  purged-kept w =
      if_ind (λ (x : Db × S). x.0 ≡ w.0) (ltb 0 (answer_or 0 (ops.dlq_depth w.1).0)) refl refl

  abbrev calmed : Db × S → Db × S
  calmed w =
      (wait (with_checker ops link) (zero_active_events (with_checker ops link)) (seconds 30)
        (seconds 3)
        (resolve_all_active_events ops link
          (delete_stale_heartbeats ops link (seconds 30) (purged w)).1).1).1

  calmed-tables : (w : Db × S) → ((calmed w).0.tasks ≡ w.0.tasks) × All Inactive (calmed w).0.events
  calmed-tables w =
      let beats = (delete_stale_heartbeats ops link (seconds 30) (purged w)).1 in
      let resolved = (resolve_all_active_events ops link beats).1 in
      let kept = wait-kept (seconds 30) (seconds 3) resolved in
      (
        ap (λ (x : Db). x.tasks) kept
            ∙ (events-resolved beats).0
            ∙ (heartbeats-kept (seconds 30) (purged w)).0
            ∙ ap (λ (x : Db). x.tasks) (purged-kept w),
        subst (λ (x : Db). All Inactive x.events) (sym kept) (events-resolved beats).1,
      )

  abbrev failed_tasks : String → Db × S → Db × S
  failed_tasks reason w =
      (fail_abandoned_tasks ops link reason (fail_stuck_tasks ops link reason w).1).1

  failed_tasks-tasks :
      (reason : String) (d : Db) (s : S)
      → (failed_tasks reason (d, s)).0.tasks ≡ map (settle (ops.now s) (ops.now s) reason) d.tasks
  failed_tasks-tasks reason d s =
      ap (λ (w : Db × S). (fail_abandoned_tasks ops link reason w).1.0.tasks)
        (stuck-tasks reason d s)
      ∙ ap (λ (w : Db × S). w.0.tasks)
          (abandoned-tasks reason
            (record d { tasks = map (fail_if is_stuck (ops.now s) reason) d.tasks }) s)
      ∙ map-settle (ops.now s) (ops.now s) reason d.tasks

  -- Where the database answers every call, and nothing but stabilizeSystem writes to the tables meanwhile: of the tasks whose payload starts with "chaos-", those that are being processed and those that wait for their first start are failed, with the scenario's name and "-cleanup" as the error, and every other task is left as it is; and no healing event is active.
  pub stabilize_system-Stable :
      (name : String) (d : Db) (s : S)
      → Each
          (Treated (ops.now s) (text_append name "-cleanup"))
          d.tasks
          (stabilize_system (with_checker ops link) name (d, s)).0.tasks
        × All Inactive (stabilize_system (with_checker ops link) name (d, s)).0.events
  unfolding stabilize_system with_checker
  stabilize_system-Stable name d s =
      let reason = text_append name "-cleanup" in
      let (kept, inactive) = calmed-tables (failed_tasks reason (d, s)) in
      (
        subst (Each (Treated (ops.now s) reason) d.tasks)
            (sym (kept ∙ failed_tasks-tasks reason d s)) (map-Treated (ops.now s) reason d.tasks),
        inactive,
      )
