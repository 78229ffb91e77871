-- ===== src/FreeBusy/Slots.antt =====
-- `nextFreeSlot` of src/core/freebusy.cpp. What QDateTime does in the time zone is an argument, with
-- the documented bounds that the search relies on.
use omacalendar.Base.{
  ℕ, zero, suc, ◌+◌, ◌-◌, ◌*◌, ◌%◌, ◌<◌, Bool, not, ◌&&◌, ◌||◌, Option, none, some, List, ltb, leb,
  ◌==◌, if◌then◌else◌, select, first, Stamp, stamp_lt,
}
use omacalendar.FreeBusy.{BusyInterval, merge_busy_intervals}

-- `time().minute()` and `second()` of a time in the zone; the time at an hour of its date, and of the
-- date after it.
pub record Zone : Type 0 where
  pub minute : ℕ → ℕ
  pub second : ℕ → ℕ
  pub at_hour : ℕ → ℕ → ℕ
  pub next_day_at_hour : ℕ → ℕ → ℕ
  pub second-lt : (t : ℕ) → second t < 60
  pub next_day-lt : (t hour : ℕ) → t < next_day_at_hour t hour

-- Up to the next quarter of an hour.
abbrev pub round_up : Zone → ℕ → ℕ
round_up zone t =
    if not (zone.minute t % 15 == 0) || not (zone.second t == 0)
    then t - zone.second t * 1000 + (15 - zone.minute t % 15) * 60 * 1000
    else t

abbrev pub day_end : Zone → ℕ → ℕ → ℕ
day_end zone end_hour t =
    if leb 24 end_hour then zone.next_day_at_hour t 0 else zone.at_hour t end_hour

abbrev pub clashes : ℕ → ℕ → BusyInterval → Bool
clashes start end i = stamp_lt i.start (some end) && stamp_lt (some start) i.end

-- `std::find_if`.
abbrev pub find_clash : ℕ → ℕ → List BusyInterval → Option BusyInterval
find_clash start end is = first (select (clashes start end) is)

-- What a round of the loop does: return, or go on from a later candidate.
pub data Round : Type 0 where
  returns : Stamp → Round
  goes_on : ℕ → Round

pub record Search : Type 0 where
  pub merged : List BusyInterval
  pub duration : ℕ
  pub start_hour : ℕ
  pub end_hour : ℕ
  pub horizon : ℕ

abbrev pub past_clash : Zone → ℕ → Option BusyInterval → Round
past_clash zone t none = returns (some t)
past_clash zone t (some clash) = elim clash.end [
  | none ↦ returns none
  | some end ↦ goes_on (round_up zone end)
]

unfoldable pub round_of : Zone → Search → ℕ → Round
round_of zone q t =
    if ltb q.horizon (t + q.duration)
    then returns none
    else if ltb t (zone.at_hour t q.start_hour)
    then goes_on (zone.at_hour t q.start_hour)
    else if ltb (day_end zone q.end_hour t) (t + q.duration)
    then goes_on (zone.next_day_at_hour t q.start_hour)
    else past_clash zone t (find_clash t (t + q.duration) q.merged)

-- The loop, on fuel; `none` is running out of it.
abbrev pub after_round : Round → (ℕ → Option Stamp) → Option Stamp
after_round (returns t) rest = some t
after_round (goes_on t) rest = rest t

unfoldable pub search_slot : Zone → Search → ℕ → ℕ → Option Stamp
unfolding round_of
search_slot zone q zero t = none
search_slot zone q (suc fuel) t = after_round (round_of zone q t) (λ t'. search_slot zone q fuel t')

-- `none` as a result is an invalid QDateTime. A candidate moves on in each round, so the distance to the
-- horizon is fuel enough.
abbrev pub from_fuel : Option Stamp → Stamp
from_fuel none = none
from_fuel (some t) = t

abbrev pub start_search : Zone → List BusyInterval → ℕ → ℕ → ℕ → ℕ → ℕ → Option Stamp
start_search zone busy earliest minutes start_hour end_hour horizon =
    let q : Search = record {
      merged = merge_busy_intervals busy;
      duration = minutes * 60 * 1000;
      start_hour = start_hour;
      end_hour = end_hour;
      horizon = horizon;
    } in
    search_slot zone q (suc horizon) (round_up zone earliest)

unfoldable pub next_free_slot : Zone → List BusyInterval → Stamp → ℕ → ℕ → ℕ → Stamp → Stamp
unfolding search_slot merge_busy_intervals
next_free_slot zone busy none minutes start_hour end_hour horizon = none
next_free_slot zone busy (some earliest) minutes start_hour end_hour none = none
next_free_slot zone busy (some earliest) minutes start_hour end_hour (some horizon) =
    if (minutes == 0) || leb end_hour start_hour
    then none
    else from_fuel (start_search zone busy earliest minutes start_hour end_hour horizon)
