-- ===== src/FreeBusy/Tests.antt =====
-- Tests of the merging of busy intervals, and its theorems at concrete inputs.
use omacalendar.Base.{
  sort_by, ℕ, ◌+◌, ◌*◌, ◌/◌, ◌%◌, ◌≤◌, ◌<◌, ◌≡◌, refl, ◌≢◌, ◌↔◌, true, false, none, some, List, [],
  ◌∷◌, arith, Any, str_eq,
}
use omacalendar.FreeBusy.{BusyInterval, merge_busy_intervals}
use native.Mathlib.Nat.{mod-lt, div-add-mod}
use omacalendar.FreeBusy.Events.{Event, QtZone, busy_intervals_from_events}
use omacalendar.Ipc.{boolean, text, object, no_item, item, no_member, member}
use omacalendar.FreeBusy.Busy.{IsBusy, busy_intervals_from_events-Any}
use omacalendar.FreeBusy.Slots.{Zone, start_search, next_free_slot}
use omacalendar.FreeBusy.Free.{IsFree, start_search_ends, next_free_slot-IsFree}
use omacalendar.FreeBusy.Merge.{
  Holds, AreApart, merge_busy_intervals-Any, merge_busy_intervals-AreApart,
}

abbrev busy : List BusyInterval
busy =
    record { start = some 50; end = some 60 }
    ∷ record { start = some 10; end = some 20 }
    ∷ record { start = some 20; end = some 30 }
    ∷ record { start = some 15; end = some 18 }
    ∷ record { start = none; end = some 99 }
    ∷ record { start = some 40; end = some 40 }
    ∷ []

abbrev merged_busy : List BusyInterval
merged_busy =
    record { start = some 10; end = some 30 } ∷ record { start = some 50; end = some 60 } ∷ []

merged_is : merge_busy_intervals busy ≡ merged_busy
unfolding merge_busy_intervals sort_by
merged_is = refl

merge_busy_intervals-Any_example : Any (Holds 17) (merge_busy_intervals busy) ↔ Any (Holds 17) busy
merge_busy_intervals-Any_example = merge_busy_intervals-Any 17 busy

merge_busy_intervals-AreApart_example : AreApart (merge_busy_intervals busy)
merge_busy_intervals-AreApart_example = merge_busy_intervals-AreApart busy

-- A zone without offset or change of its clock.
abbrev hour_ms : ℕ
hour_ms = 3600000

abbrev utc : Zone
utc = record {
  minute = λ t. t / 60000 % 60;
  second = λ t. t / 1000 % 60;
  at_hour = λ t hour. t / (24 * hour_ms) * (24 * hour_ms) + hour * hour_ms;
  next_day_at_hour = λ t hour. (t / (24 * hour_ms) + 1) * (24 * hour_ms) + hour * hour_ms;
  second-lt = λ t. mod-lt (t / 1000) (omega arith);
  next_day-lt = λ t hour.
      omega (arith, div-add-mod t (24 * hour_ms), mod-lt t {m = 24 * hour_ms} (omega arith));
}

-- From 08:50 on, busy from 9:00 to 10:10: the slot is at 10:15.
abbrev meeting : List BusyInterval
meeting = record { start = some (9 * hour_ms); end = some (10 * hour_ms + 600000) } ∷ []

next_free_slot-IsFree_example :
    IsFree utc meeting (8 * hour_ms + 3000000) 1800000 9 17 (48 * hour_ms) (10 * hour_ms + 900000)
unfolding next_free_slot sort_by
next_free_slot-IsFree_example =
    next_free_slot-IsFree utc meeting (8 * hour_ms + 3000000) 30 9 17 (48 * hour_ms)
      (10 * hour_ms + 900000) refl

start_search_ends_example : start_search utc meeting (8 * hour_ms) 30 9 17 (48 * hour_ms) ≢ none
start_search_ends_example =
    start_search_ends utc meeting (8 * hour_ms) 30 9 17 (48 * hour_ms) (omega arith)

-- Every text is its own lower case, and a date is told by the time it starts at.
abbrev qt_utc : QtZone
qt_utc = record { midnight = λ d. d; wall_clock = λ t. t; to_lower = λ s. s; same_text = str_eq }

abbrev lunch : Event
lunch = record {
  deleted = false;
  status = "confirmed";
  transparency = "opaque";
  attendees = no_item;
  all_day = false;
  is_floating = true;
  start_date = none;
  end_date = none;
  start_utc = some 100;
  end_utc = some 200;
}

abbrev declined : Event
declined = record lunch {
  attendees =
      item
        (object
          (member "self" (boolean true) (member "responseStatus" (text "declined") no_member)))
        no_item;
  end_utc = some 900;
}

lunch_is :
    busy_intervals_from_events qt_utc (lunch ∷ declined ∷ []) (some 150) (some 1000)
    ≡ record { start = some 150; end = some 200 } ∷ []
unfolding busy_intervals_from_events sort_by
lunch_is = refl

busy_intervals_from_events-Any_example :
    Any
      (Holds 160)
      (busy_intervals_from_events qt_utc (lunch ∷ declined ∷ []) (some 150) (some 1000))
    ↔ (150 ≤ 160 × 160 < 1000 × Any (IsBusy qt_utc 160) (lunch ∷ declined ∷ []))
busy_intervals_from_events-Any_example =
    busy_intervals_from_events-Any qt_utc (lunch ∷ declined ∷ []) 150 1000 160
