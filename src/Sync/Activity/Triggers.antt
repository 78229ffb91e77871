-- ===== src/Sync/Activity/Triggers.antt =====
-- The syncs that an activity asks for: how far apart they are, and what brings them on.
use omacalendar.Base.{
  ℕ, ◌+◌, ◌*◌, ◌≤◌, ◌≡◌, refl, ◌≢◌, ◌↔◌, true, false, none, some, List, [], ◌∷◌, ◌++◌, arith, Stamp,
}
use omacalendar.Sync.Activity.{
  Effect, sync_requested, SyncActivity, interactive_lease_seconds, update_interval,
  triggered_recently, request_sync, set_interactive, set_on_battery, network_state_changed,
  on_prepare_for_sleep, on_power_properties_changed, Call, sets_interactive, sets_on_battery,
  prepares_for_sleep, changes_network, changes_power, resumes, lease_times_out, step, at_time, run,
}

-- The times of the sync requests among the effects of a run.
abbrev pub sync_times : List (ℕ × Effect) → List ℕ
sync_times [] = []
sync_times ((t, sync_requested) ∷ es) = t ∷ sync_times es
sync_times (_ ∷ es) = sync_times es

-- Each time is a minute or more after the one before it; the first, after the stamp.
abbrev pub IsSpaced : Stamp → List ℕ → Type 0
IsSpaced last [] = Unit
IsSpaced none (t ∷ ts) = IsSpaced (some t) ts
IsSpaced (some last) (t ∷ ts) = (last + 60 * 1000 ≤ t) × IsSpaced (some t) ts

-- The effects of one call at a time: a call before any others leaves the rest spaced from its last trigger.
module _ (rest : List (ℕ × Effect)) where
  update_interval-IsSpaced :
      (a : SyncActivity) (now : ℕ)
      → IsSpaced (update_interval a now).0.last_trigger (sync_times rest)
      → IsSpaced a.last_trigger (sync_times (at_time now (update_interval a now).1 ++ rest))
  unfolding update_interval
  update_interval-IsSpaced a now h = ground arith

  request_sync-IsSpaced :
      (a : SyncActivity) (now : ℕ) (last : Stamp)
      → a.last_trigger ≡ last
      → IsSpaced (request_sync a now).0.last_trigger (sync_times rest)
      → IsSpaced last (sync_times (at_time now (request_sync a now).1 ++ rest))
  unfolding request_sync triggered_recently
  request_sync-IsSpaced a now none e h = ground arith
  request_sync-IsSpaced a now (some l) e h = ground arith

  step-IsSpaced :
      (a : SyncActivity) (now : ℕ) (c : Call)
      → IsSpaced (step a now c).0.last_trigger (sync_times rest)
      → IsSpaced a.last_trigger (sync_times (at_time now (step a now c).1 ++ rest))
  unfolding step set_interactive set_on_battery on_prepare_for_sleep network_state_changed
      on_power_properties_changed
  step-IsSpaced a now (sets_interactive true) h =
      update_interval-IsSpaced
        (record a { interactive_until = some (now + interactive_lease_seconds * 1000) }) now h
  step-IsSpaced a now (sets_interactive false) h =
      update_interval-IsSpaced (record a { interactive_until = none }) now h
  step-IsSpaced a now (sets_on_battery b) h =
      update_interval-IsSpaced (record a { on_battery = b }) now h
  step-IsSpaced a now (prepares_for_sleep true) h = h
  step-IsSpaced a now (prepares_for_sleep false) h = h
  step-IsSpaced a now (changes_network s) h =
      ground (arith, request_sync-IsSpaced (record a { network_state = s }) now a.last_trigger refl)
  step-IsSpaced a now (changes_power name none) h = h
  step-IsSpaced a now (changes_power name (some b)) h =
      ground (arith, update_interval-IsSpaced (record a { on_battery = b }) now)
  step-IsSpaced a now resumes h = request_sync-IsSpaced a now a.last_trigger refl h
  step-IsSpaced a now lease_times_out h = update_interval-IsSpaced a now h

-- Over any run of calls at any times, also times that go back, two sync requests are at least a minute
-- apart, and the first is at least a minute after the last one before the run.
pub run-IsSpaced :
    (a : SyncActivity) (cs : List (ℕ × Call)) → IsSpaced a.last_trigger (sync_times (run a cs).1)
unfolding run
run-IsSpaced a [] = tt
run-IsSpaced a ((now, c) ∷ cs) =
    step-IsSpaced (run (step a now c).0 cs).1 a now c (run-IsSpaced (step a now c).0 cs)

-- No request was made within the last minute.
abbrev pub IsQuiet : Stamp → ℕ → Type 0
IsQuiet none now = Unit
IsQuiet (some last) now = last + 60 * 1000 ≤ now

triggered_recently_iff :
    (last : Stamp) (now : ℕ) → (triggered_recently last now ≡ false) ↔ IsQuiet last now
unfolding triggered_recently
triggered_recently_iff none now = ((λ e. tt), (λ q. refl))
triggered_recently_iff (some last) now = ground arith

-- A change of the network's state asks for a sync exactly when it is a change to "connected, global" from
-- another state and no request was made within the last minute.
network_state_changed_iff :
    (a : SyncActivity) (now state : ℕ)
    → ((network_state_changed a now state).1 ≡ sync_requested ∷ [])
      ↔ ((state ≡ 70) × (a.network_state ≢ 70) × IsQuiet a.last_trigger now)
unfolding network_state_changed request_sync
network_state_changed_iff a now state = (
  (λ e. ground (arith, triggered_recently_iff a.last_trigger now)),
  (λ q. ground (arith, triggered_recently_iff a.last_trigger now)),
)
