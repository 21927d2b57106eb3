-- ===== src/Chaos/Preflight.antt =====
-- Preflight of cmd/chaos/internal/chaos/health.go, over the checker's queries on any world. An error is the
-- text that is logged; the texts with numbers or answers are constructors.
use trace_runtime.Prelude.{
  ℕ, String, Bool, true, false, ◌⊎◌, inl, inr, List, [], ◌∷◌, ◌++◌, length, ltb, if◌then◌else◌,
}
use trace_runtime.Healing.{HealingEvent}

pub record Checks (S : Type 0) : Type 0 where
  pub container_health : String → S → (String ⊎ Bool) × S
  pub active_healing_events : S → (String ⊎ List HealingEvent) × S
  pub queue_depth : S → (String ⊎ ℕ) × S
  pub dlq_depth : S → (String ⊎ ℕ) × S
  pub sleep : ℕ → S → S

pub data Trouble : Type 0 where
  container_unread : (name error : String) → Trouble
  container_unhealthy : String → Trouble
  events_unread depth_unread dlq_unread : String → Trouble
  events_active depth_positive dlq_positive : ℕ → Trouble

pub record PreflightResult : Type 0 where
  pub passed : Bool
  pub errors : List Trouble

abbrev add_error : PreflightResult → Trouble → PreflightResult
add_error r t = record { passed = false; errors = r.errors ++ t ∷ [] }

module _ {S : Type 0} (chk : Checks S) where
  abbrev health : String → (String ⊎ Bool) × S → PreflightResult → PreflightResult × S
  health name (inl e, s) r = (add_error r (container_unread name e), s)
  health name (inr false, s) r = (add_error r (container_unhealthy name), s)
  health name (inr true, s) r = (r, s)

  abbrev containers : List String → PreflightResult → S → PreflightResult × S
  containers [] r s = (r, s)
  containers (name ∷ names) r s =
      let (r', s') = health name (chk.container_health name s) r in containers names r' s'

  -- The attempts that are left; each asks, and waits for five seconds if there are events.
  abbrev again :
      (S → (String ⊎ List HealingEvent) × S)
      → (String ⊎ List HealingEvent) × S
      → (String ⊎ List HealingEvent) × S
  again rest (inl e, s) = (inl e, s)
  again rest (inr [], s) = (inr [], s)
  again rest (inr (e ∷ es), s) = rest (chk.sleep 5000000 s)

  abbrev last : (String ⊎ List HealingEvent) × S → (String ⊎ List HealingEvent) × S
  last (inr (e ∷ es), s) = (inr (e ∷ es), chk.sleep 5000000 s)
  last r = r

  abbrev events : S → (String ⊎ List HealingEvent) × S
  events s =
      again (λ t. again (λ u. last (chk.active_healing_events u)) (chk.active_healing_events t))
        (chk.active_healing_events s)

  abbrev count_events : (String ⊎ List HealingEvent) × S → PreflightResult → PreflightResult × S
  count_events (inl e, s) r = (add_error r (events_unread e), s)
  count_events (inr [], s) r = (r, s)
  count_events (inr (e ∷ es), s) r = (add_error r (events_active (length (e ∷ es))), s)

  abbrev depth :
      (String → Trouble) → (ℕ → Trouble) → (String ⊎ ℕ) × S → PreflightResult → PreflightResult × S
  depth unread positive (inl e, s) r = (add_error r (unread e), s)
  depth unread positive (inr n, s) r = (if ltb 0 n then add_error r (positive n) else r, s)

  unfoldable pub preflight : List String → S → PreflightResult × S
  preflight required s =
      let (a, s₁) = containers required (record { passed = true; errors = [] }) s in
      let (b, s₂) = count_events (events s₁) a in
      let (c, s₃) = depth depth_unread depth_positive (chk.queue_depth s₂) b in
      depth dlq_unread dlq_positive (chk.dlq_depth s₃) c
