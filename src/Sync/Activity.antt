-- ===== src/Sync/Activity.antt =====
-- The polling activity of src/sync/syncactivity.h and syncactivity.cpp: how often providers are
-- polled, and when the desktop's signals ask for a sync. The clock is an argument of each call. What
-- a call emits, starts or stops (the Qt signals and the timers) is the list of effects that it returns;
-- a timer that fires is a call. The subscription to the system bus is not modelled.
pub mod Interval
pub mod Triggers
mod Tests
use omacalendar.Base.{
  ℕ, ◌+◌, ◌-◌, ◌*◌, ◌/◌, String, Bool, true, false, not, ◌&&◌, Option, none, some, List, [], ◌∷◌,
  ◌++◌, map, ltb, ◌==◌, if◌then◌else◌, str_eq, Stamp, is_valid, stamp_lt,
}

pub data Effect : Type 0 where
  poll_interval_changed : ℕ → Effect
  sync_requested : Effect
  start_lease_timer : ℕ → Effect
  stop_lease_timer : Effect
  single_shot_resumed : ℕ → Effect

pub record SyncActivity : Type 0 where
  pub interactive_until : Stamp
  pub last_trigger : Stamp
  pub on_battery : Bool
  pub network_state : ℕ
  pub interval_ms : ℕ

abbrev pub interactive_interval_ms : ℕ
interactive_interval_ms = 2 * 60 * 1000

abbrev pub default_interval_ms : ℕ
default_interval_ms = 5 * 60 * 1000

abbrev pub battery_interval_ms : ℕ
battery_interval_ms = 10 * 60 * 1000

abbrev pub interactive_lease_seconds : ℕ
interactive_lease_seconds = 10 * 60

abbrev pub minimum_trigger_gap_seconds : ℕ
minimum_trigger_gap_seconds = 60

abbrev pub network_connected_global : ℕ
network_connected_global = 70

unfoldable pub new_activity : SyncActivity
new_activity = record {
  interactive_until = none;
  last_trigger = none;
  on_battery = false;
  network_state = 0;
  interval_ms = default_interval_ms;
}

pub is_interactive : SyncActivity → ℕ → Bool
is_interactive a now = is_valid a.interactive_until && stamp_lt (some now) a.interactive_until

pub chosen_interval : Bool → Bool → ℕ
chosen_interval interactive on_battery =
    if interactive
    then interactive_interval_ms
    else if on_battery
    then battery_interval_ms
    else default_interval_ms

pub update_interval : SyncActivity → ℕ → SyncActivity × List Effect
unfolding is_interactive chosen_interval
update_interval a now =
    let interval = chosen_interval (is_interactive a now) a.on_battery in
    if interval == a.interval_ms
    then (a, [])
    else (record a { interval_ms = interval }, poll_interval_changed interval ∷ [])

-- `secsTo` of two times in milliseconds; it is negative, and below every gap, where the clock went back.
abbrev pub secs_to : ℕ → ℕ → ℕ
secs_to earlier later = (later - earlier) / 1000

pub triggered_recently : Stamp → ℕ → Bool
triggered_recently none now = false
triggered_recently (some last) now = ltb (secs_to last now) minimum_trigger_gap_seconds

pub request_sync : SyncActivity → ℕ → SyncActivity × List Effect
unfolding triggered_recently
request_sync a now =
    if triggered_recently a.last_trigger now
    then (a, [])
    else (record a { last_trigger = some now }, sync_requested ∷ [])

-- Effects of a call that come before those of what it calls.
abbrev pub after_effects : List Effect → SyncActivity × List Effect → SyncActivity × List Effect
after_effects es (a, more) = (a, es ++ more)

pub set_interactive : SyncActivity → ℕ → Bool → SyncActivity × List Effect
set_interactive a now true =
    after_effects (start_lease_timer (interactive_lease_seconds * 1000) ∷ []) (
      update_interval
        (record a { interactive_until = some (now + interactive_lease_seconds * 1000) }) now)
set_interactive a now false =
    after_effects (stop_lease_timer ∷ [])
      (update_interval (record a { interactive_until = none }) now)

pub set_on_battery : SyncActivity → ℕ → Bool → SyncActivity × List Effect
set_on_battery a now on_battery = update_interval (record a { on_battery = on_battery }) now

pub network_state_changed : SyncActivity → ℕ → ℕ → SyncActivity × List Effect
network_state_changed a now state =
    let regained =
      (state == network_connected_global) && not (a.network_state == network_connected_global) in
    let a' : SyncActivity = record a { network_state = state } in
    if regained then request_sync a' now else (a', [])

pub on_prepare_for_sleep : SyncActivity → Bool → SyncActivity × List Effect
on_prepare_for_sleep a true = (a, [])
on_prepare_for_sleep a false = (a, single_shot_resumed 5000 ∷ [])

-- The properties that changed hold `OnBattery` with a value, or do not hold it.
pub on_power_properties_changed :
    SyncActivity → ℕ → String → Option Bool → SyncActivity × List Effect
on_power_properties_changed a now interface_name none = (a, [])
on_power_properties_changed a now interface_name (some on_battery) =
    if str_eq interface_name "org.freedesktop.UPower"
    then set_on_battery a now on_battery
    else (a, [])

-- The calls that reach an activity: from clients, from the system bus, and from its two timers.
pub data Call : Type 0 where
  sets_interactive sets_on_battery prepares_for_sleep : Bool → Call
  changes_network : ℕ → Call
  changes_power : String → Option Bool → Call
  resumes lease_times_out : Call

unfoldable pub step : SyncActivity → ℕ → Call → SyncActivity × List Effect
step a now (sets_interactive b) = set_interactive a now b
step a now (sets_on_battery b) = set_on_battery a now b
step a now (prepares_for_sleep b) = on_prepare_for_sleep a b
step a now (changes_network s) = network_state_changed a now s
step a now (changes_power name value) = on_power_properties_changed a now name value
step a now resumes = request_sync a now
step a now lease_times_out = update_interval a now

-- A run of calls at their times: the final state, and the effects with the time of each.
abbrev pub at_time : ℕ → List Effect → List (ℕ × Effect)
at_time now = map (λ e. (now, e))

unfoldable pub run : SyncActivity → List (ℕ × Call) → SyncActivity × List (ℕ × Effect)
run a [] = (a, [])
run a ((now, c) ∷ cs) =
    let (a', es) = step a now c in let (b, more) = run a' cs in (b, at_time now es ++ more)
