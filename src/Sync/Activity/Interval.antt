-- ===== src/Sync/Activity/Interval.antt =====
-- The polling interval: what listeners hear of it, what it is after each call, and the lease under
-- which a client keeps it short.
use omacalendar.Base.{
  ℕ, ◌+◌, ◌*◌, ◌≤◌, ◌<◌, ◌≡◌, refl, ◌∙◌, ◌≢◌, inl, inr, Bool, true, false, none, some, List, [],
  ◌∷◌, ◌++◌, arith, Bool-cases, All, str_eq,
}
use omacalendar.Sync.Activity.{
  Effect, poll_interval_changed, SyncActivity, interactive_interval_ms, default_interval_ms,
  battery_interval_ms, interactive_lease_seconds, is_interactive, chosen_interval, update_interval,
  request_sync, set_interactive, set_on_battery, network_state_changed, on_prepare_for_sleep,
  on_power_properties_changed, Call, sets_interactive, sets_on_battery, prepares_for_sleep,
  changes_network, changes_power, resumes, lease_times_out, step, at_time, run,
}

-- The interval that a listener knows which started at `known` and hears the effects.
abbrev pub heard : ℕ → List (ℕ × Effect) → ℕ
heard known [] = known
heard known ((_, poll_interval_changed n) ∷ es) = heard n es
heard known (_ ∷ es) = heard known es

heard-append :
    (known : ℕ) (xs ys : List (ℕ × Effect)) → heard known (xs ++ ys) ≡ heard (heard known xs) ys
heard-append known [] ys = refl
heard-append known ((t, poll_interval_changed n) ∷ xs) ys = heard-append n xs ys
heard-append known ((t, _) ∷ xs) ys = heard-append known xs ys

update_interval-heard :
    (a : SyncActivity) (now : ℕ)
    → heard a.interval_ms (at_time now (update_interval a now).1)
      ≡ (update_interval a now).0.interval_ms
unfolding update_interval
update_interval-heard a now = ground arith

request_sync-heard :
    (a : SyncActivity) (now : ℕ)
    → heard a.interval_ms (at_time now (request_sync a now).1) ≡ (request_sync a now).0.interval_ms
unfolding request_sync
request_sync-heard a now = ground arith

-- The calls that leave the interval to be chosen again.
abbrev pub chooses : Call → Bool
chooses (sets_interactive b) = true
chooses (sets_on_battery b) = true
chooses lease_times_out = true
chooses (changes_power name value) = false
chooses _ = false

step-heard :
    (a : SyncActivity) (now : ℕ) (c : Call)
    → heard a.interval_ms (at_time now (step a now c).1) ≡ (step a now c).0.interval_ms
unfolding step set_interactive set_on_battery on_prepare_for_sleep network_state_changed
    on_power_properties_changed
step-heard a now (sets_interactive true) =
    update_interval-heard
      (record a { interactive_until = some (now + interactive_lease_seconds * 1000) }) now
step-heard a now (sets_interactive false) =
    update_interval-heard (record a { interactive_until = none }) now
step-heard a now (sets_on_battery b) = update_interval-heard (record a { on_battery = b }) now
step-heard a now (prepares_for_sleep true) = refl
step-heard a now (prepares_for_sleep false) = refl
step-heard a now (changes_network s) =
    ground (arith, request_sync-heard (record a { network_state = s }) now)
step-heard a now (changes_power name none) = refl
step-heard a now (changes_power name (some b)) =
    ground (arith, update_interval-heard (record a { on_battery = b }) now)
step-heard a now resumes = request_sync-heard a now
step-heard a now lease_times_out = update_interval-heard a now

-- Over any run of calls at any times a listener that knew the interval at the start, and replaces it
-- at each `pollIntervalChanged`, knows it at the end.
pub run-heard :
    (a : SyncActivity) (cs : List (ℕ × Call))
    → heard a.interval_ms (run a cs).1 ≡ (run a cs).0.interval_ms
unfolding run
run-heard a [] = refl
run-heard a ((now, c) ∷ cs) =
    heard-append a.interval_ms (at_time now (step a now c).1) (run (step a now c).0 cs).1
    ∙ rw (step-heard a now c) (run-heard (step a now c).0 cs)

-- Until `until` the interval is the interactive one.
record IsLeased (until : ℕ) (a : SyncActivity) : Type 0 where
  deadline : ℕ
  held : a.interactive_until ≡ some deadline
  long : until ≤ deadline
  short : a.interval_ms ≡ interactive_interval_ms

-- A call within the lease that does not give it up.
abbrev pub IsWithin : ℕ → ℕ → ℕ × Call → Type 0
IsWithin start until (now, c) = (start ≤ now) × (now < until) × (c ≢ sets_interactive false)

update_interval-IsLeased :
    (until now deadline : ℕ) (a : SyncActivity)
    → now < until
    → a.interactive_until ≡ some deadline
    → until ≤ deadline
    → IsLeased until (update_interval a now).0
unfolding update_interval is_interactive chosen_interval
update_interval-IsLeased until now d a h e l = record {
  deadline = d;
  held = ground arith;
  long = l;
  short = ground arith;
}

step-IsLeased :
    (start now : ℕ) (c : Call) (a : SyncActivity)
    → IsWithin start (start + interactive_lease_seconds * 1000) (now, c)
    → IsLeased (start + interactive_lease_seconds * 1000) a
    → IsLeased (start + interactive_lease_seconds * 1000) (step a now c).0
unfolding step set_interactive set_on_battery on_prepare_for_sleep network_state_changed
    on_power_properties_changed request_sync
step-IsLeased start now (sets_interactive true) a w v =
    update_interval-IsLeased _ now (now + interactive_lease_seconds * 1000)
      (record a { interactive_until = some (now + interactive_lease_seconds * 1000) }) w.1 refl
      (omega arith)
step-IsLeased start now (sets_interactive false) a w v = absurd (w.2 refl)
step-IsLeased start now (sets_on_battery b) a w v =
    update_interval-IsLeased _ now v.deadline (record a { on_battery = b }) w.1 v.held v.long
step-IsLeased start now (prepares_for_sleep true) a w v = v
step-IsLeased start now (prepares_for_sleep false) a w v = v
step-IsLeased start now (changes_network s) a w v = record {
  deadline = v.deadline;
  held = ground arith;
  long = v.long;
  short = ground arith;
}
step-IsLeased start now (changes_power name none) a w v = v
step-IsLeased start now (changes_power name (some b)) a w v =
    elim (Bool-cases (str_eq name "org.freedesktop.UPower")) [
      | inl e ↦ rw e (
          update_interval-IsLeased _ now v.deadline (record a { on_battery = b }) w.1 v.held v.long)
      | inr e ↦ rw e v
    ]
step-IsLeased start now resumes a w v = record {
  deadline = v.deadline;
  held = ground arith;
  long = v.long;
  short = ground arith;
}
step-IsLeased start now lease_times_out a w v =
    update_interval-IsLeased _ now v.deadline a w.1 v.held v.long

run-IsLeased :
    (start : ℕ) (cs : List (ℕ × Call)) (a : SyncActivity)
    → All (IsWithin start (start + interactive_lease_seconds * 1000)) cs
    → IsLeased (start + interactive_lease_seconds * 1000) a
    → IsLeased (start + interactive_lease_seconds * 1000) (run a cs).0
unfolding run
run-IsLeased start [] a w v = v
run-IsLeased start ((now, c) ∷ cs) a w v =
    run-IsLeased start cs (step a now c).0 w.1 (step-IsLeased start now c a w.0 v)

set_interactive-IsLeased :
    (a : SyncActivity) (start : ℕ)
    → IsLeased (start + interactive_lease_seconds * 1000) (set_interactive a start true).0
unfolding set_interactive
set_interactive-IsLeased a start =
    update_interval-IsLeased _ start (start + interactive_lease_seconds * 1000)
      (record a { interactive_until = some (start + interactive_lease_seconds * 1000) })
      (omega arith) refl (omega arith)

-- After `setInteractive(true)` the providers are polled at the interactive interval through every run of
-- calls, whatever they are, within the next ten minutes, as long as no `setInteractive(false)` comes.
interval_ms-run_leased :
    (a : SyncActivity) (start : ℕ) (cs : List (ℕ × Call))
    → All (IsWithin start (start + interactive_lease_seconds * 1000)) cs
    → (run (set_interactive a start true).0 cs).0.interval_ms ≡ interactive_interval_ms
interval_ms-run_leased a start cs w =
    (run-IsLeased start cs _ w (set_interactive-IsLeased a start)).short

-- The interval while no client is in use.
abbrev pub power_interval : Bool → ℕ
power_interval true = battery_interval_ms
power_interval false = default_interval_ms

-- A call other than `setInteractive`.
abbrev pub IsPassive : ℕ × Call → Type 0
IsPassive (now, c) = (b : Bool) → c ≢ sets_interactive b

interactive_until-update_interval :
    (a : SyncActivity) (now : ℕ) → (update_interval a now).0.interactive_until ≡ a.interactive_until
unfolding update_interval
interactive_until-update_interval a now = ground arith

interactive_until-step :
    (a : SyncActivity) (now : ℕ) (c : Call)
    → IsPassive (now, c)
    → (step a now c).0.interactive_until ≡ a.interactive_until
unfolding step set_on_battery on_prepare_for_sleep network_state_changed on_power_properties_changed
    request_sync
interactive_until-step a now (sets_interactive b) h = absurd (h b refl)
interactive_until-step a now (sets_on_battery b) h =
    interactive_until-update_interval (record a { on_battery = b }) now
interactive_until-step a now (prepares_for_sleep true) h = refl
interactive_until-step a now (prepares_for_sleep false) h = refl
interactive_until-step a now (changes_network s) h = ground arith
interactive_until-step a now (changes_power name none) h = refl
interactive_until-step a now (changes_power name (some b)) h =
    ground (arith, interactive_until-update_interval (record a { on_battery = b }) now)
interactive_until-step a now resumes h = ground arith
interactive_until-step a now lease_times_out h = interactive_until-update_interval a now

interactive_until-run :
    (a : SyncActivity) (cs : List (ℕ × Call))
    → All IsPassive cs
    → (run a cs).0.interactive_until ≡ a.interactive_until
unfolding run
interactive_until-run a [] h = refl
interactive_until-run a ((now, c) ∷ cs) h =
    interactive_until-run (step a now c).0 cs h.1 ∙ interactive_until-step a now c h.0

update_interval_expired :
    (a : SyncActivity) (now deadline : ℕ)
    → a.interactive_until ≡ some deadline
    → deadline ≤ now
    → (update_interval a now).0.interval_ms ≡ power_interval a.on_battery
unfolding update_interval is_interactive chosen_interval
update_interval_expired a now d e h = ground arith

interactive_until-set_interactive :
    (a : SyncActivity) (start : ℕ)
    → (set_interactive a start true).0.interactive_until
      ≡ some (start + interactive_lease_seconds * 1000)
unfolding set_interactive
interactive_until-set_interactive a start =
    interactive_until-update_interval
      (record a { interactive_until = some (start + interactive_lease_seconds * 1000) }) start

-- When the lease timer of a `setInteractive(true)` fires, ten minutes later or more, and no other
-- `setInteractive` came in between, the interval goes back to that of the power source: the client that
-- left without saying so is not polled for any longer.
interval_ms-lease_times_out :
    (a : SyncActivity) (start now : ℕ) (cs : List (ℕ × Call))
    → All IsPassive cs
    → start + interactive_lease_seconds * 1000 ≤ now
    → let b = (run (set_interactive a start true).0 cs).0 in
      (step b now lease_times_out).0.interval_ms ≡ power_interval b.on_battery
unfolding step
interval_ms-lease_times_out a start now cs h late =
    update_interval_expired _ now (start + interactive_lease_seconds * 1000)
      (interactive_until-run _ cs h ∙ interactive_until-set_interactive a start) late
