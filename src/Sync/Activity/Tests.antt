-- ===== src/Sync/Activity/Tests.antt =====
-- Tests of the polling activity, and its theorems at concrete inputs.
use omacalendar.Base.{ℕ, ◌≡◌, refl, true, false, none, List, [], ◌∷◌, ◌++◌}
use omacalendar.Sync.Activity.{
  poll_interval_changed, sync_requested, new_activity, is_interactive, chosen_interval,
  update_interval, triggered_recently, request_sync, set_interactive, set_on_battery,
  network_state_changed, on_prepare_for_sleep, Call, sets_on_battery, prepares_for_sleep,
  changes_network, resumes, lease_times_out, step, run,
}
use omacalendar.Sync.Activity.Interval.{heard, run-heard}
use omacalendar.Sync.Activity.Triggers.{sync_times, IsSpaced, run-IsSpaced}

-- The machine resumes at 100 s, the network comes back at 130 s (too soon) and again at 170 s.
abbrev wake_up : List (ℕ × Call)
wake_up =
    (95000, prepares_for_sleep false)
    ∷ (100000, resumes)
    ∷ (130000, changes_network 70)
    ∷ (165000, changes_network 20)
    ∷ (170000, changes_network 70)
    ∷ []

wake_up_syncs : sync_times (run new_activity wake_up).1 ≡ 100000 ∷ 170000 ∷ []
unfolding run step new_activity on_prepare_for_sleep network_state_changed request_sync
    triggered_recently
wake_up_syncs = refl

-- A client is in use from 0 s; the machine goes on battery; the lease runs out.
abbrev in_use : List (ℕ × Call)
in_use = (1000, sets_on_battery true) ∷ (2000, changes_network 70) ∷ []

in_use_intervals :
    (run (set_interactive new_activity 0 true).0 (in_use ++ (600000, lease_times_out) ∷ [])).1
    ≡ (2000, sync_requested) ∷ (600000, poll_interval_changed 600000) ∷ []
unfolding run step new_activity set_interactive set_on_battery network_state_changed request_sync
    triggered_recently update_interval is_interactive chosen_interval
in_use_intervals = refl

run-heard_example :
    heard 300000 (run new_activity wake_up).1 ≡ (run new_activity wake_up).0.interval_ms
unfolding new_activity
run-heard_example = run-heard new_activity wake_up

run-IsSpaced_example : IsSpaced none (sync_times (run new_activity wake_up).1)
unfolding new_activity
run-IsSpaced_example = run-IsSpaced new_activity wake_up
