-- ===== src/FreeBusy.antt =====
-- The busy time of src/core/freebusy.cpp: `mergeBusyIntervals`; `busyIntervalsFromEvents` is in
-- FreeBusy/Events, `nextFreeSlot` in FreeBusy/Slots, with the time zone as an argument.
pub mod Merge
pub mod Events
pub mod Busy
pub mod Slots
pub mod Free
mod Tests
use omacalendar.Base.{
  sort_by, Bool, not, ◌||◌, List, [], ◌∷◌, if◌then◌else◌, Stamp, is_valid, stamp_le, stamp_lt,
}

pub record BusyInterval : Type 0 where
  pub start : Stamp
  pub end : Stamp

abbrev pub starts_before : BusyInterval → BusyInterval → Bool
starts_before left right = stamp_lt left.start right.start

abbrev pub is_skipped : BusyInterval → Bool
is_skipped i = not (is_valid i.start) || not (is_valid i.end) || stamp_le i.end i.start

abbrev pub later : Stamp → Stamp → Stamp
later a b = if stamp_lt a b then b else a

abbrev pub extend : BusyInterval → BusyInterval → BusyInterval
extend last i = record last { end = later last.end i.end }

-- The loop from where `merged` has the last element `last`; those before it do not change any more.
unfoldable pub merge_after : BusyInterval → List BusyInterval → List BusyInterval
merge_after last [] = last ∷ []
merge_after last (i ∷ is) =
    let skipped = merge_after last is in
    let extended = merge_after (extend last i) is in
    let appended = merge_after i is in
    if is_skipped i
    then skipped
    else if stamp_le i.start last.end
    then extended
    else last ∷ appended

-- The loop while `merged` is empty.
unfoldable pub merge_sorted : List BusyInterval → List BusyInterval
unfolding merge_after
merge_sorted [] = []
merge_sorted (i ∷ is) =
    let rest = merge_sorted is in if is_skipped i then rest else merge_after i is

-- Where starts are equal `std::sort` leaves the order open; here it is that of the input.
unfoldable pub merge_busy_intervals : List BusyInterval → List BusyInterval
unfolding merge_sorted
merge_busy_intervals intervals = merge_sorted (sort_by starts_before intervals)
