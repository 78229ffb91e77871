-- ===== src/FreeBusy/Events.antt =====
-- `busyIntervalsFromEvents` of src/core/freebusy.cpp: the events that take up time, clipped to a
-- range. What QDateTime does in the time zone, and QString's comparisons without case, are arguments.
use omacalendar.Base.{
  ℕ, String, Bool, false, ◌||◌, Option, List, [], ◌∷◌, if◌then◌else◌, str_eq, Stamp, stamp_lt,
}
use omacalendar.Ipc.{
  JsonValue, text, JsonArray, no_item, item, JsonObject, value, to_string, to_bool, to_object,
}
use omacalendar.FreeBusy.{BusyInterval, merge_busy_intervals}

-- The members of `Event` that are read here. A date is a day number, or invalid.
pub record Event : Type 0 where
  pub deleted : Bool
  pub status : String
  pub transparency : String
  pub attendees : JsonArray
  pub all_day : Bool
  pub is_floating : Bool
  pub start_date : Option ℕ
  pub end_date : Option ℕ
  pub start_utc : Stamp
  pub end_utc : Stamp

-- `QDateTime(date, 00:00, zone)`, the date and time of a floating time read in the zone, and
-- `toLower` and `compare` of QString.
pub record QtZone : Type 0 where
  pub midnight : Option ℕ → Stamp
  pub wall_clock : Stamp → Stamp
  pub to_lower : String → String
  pub same_text : String → String → Bool

-- `toString` with its default.
abbrev pub string_or : JsonValue → String → String
string_or (text s) default = s
string_or _ default = default

abbrev pub response_of : JsonObject → String
response_of attendee =
    string_or (value attendee "responseStatus") (to_string (value attendee "partstat"))

-- The first attendee that is the user decides.
unfoldable pub declined_by_self : QtZone → JsonArray → Bool
declined_by_self zone no_item = false
declined_by_self zone (item v vs) =
    let attendee = to_object v in
    let later = declined_by_self zone vs in
    if to_bool (value attendee "self")
    then str_eq (zone.to_lower (response_of attendee)) "declined"
    else later

-- An event that does not count.
abbrev pub is_free : QtZone → Event → Bool
is_free zone e =
    e.deleted
    || zone.same_text e.status "cancelled"
    || zone.same_text e.transparency "transparent"
    || declined_by_self zone e.attendees

abbrev pub span_of : QtZone → Event → BusyInterval
span_of zone e =
    if e.all_day
    then record { start = zone.midnight e.start_date; end = zone.midnight e.end_date }
    else if e.is_floating
    then record { start = zone.wall_clock e.start_utc; end = zone.wall_clock e.end_utc }
    else record { start = e.start_utc; end = e.end_utc }

-- `std::max` and `std::min`.
abbrev pub clip : Stamp → Stamp → BusyInterval → BusyInterval
clip range_start range_end i = record {
  start = if stamp_lt i.start range_start then range_start else i.start;
  end = if stamp_lt range_end i.end then range_end else i.end;
}

unfoldable pub intervals_of : QtZone → Stamp → Stamp → List Event → List BusyInterval
unfolding declined_by_self
intervals_of zone range_start range_end [] = []
intervals_of zone range_start range_end (e ∷ events) =
    let rest = intervals_of zone range_start range_end events in
    if is_free zone e then rest else clip range_start range_end (span_of zone e) ∷ rest

unfoldable pub busy_intervals_from_events : QtZone → List Event → Stamp → Stamp → List BusyInterval
unfolding intervals_of merge_busy_intervals
busy_intervals_from_events zone events range_start range_end =
    merge_busy_intervals (intervals_of zone range_start range_end events)
