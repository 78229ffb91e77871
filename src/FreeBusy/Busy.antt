-- ===== src/FreeBusy/Busy.antt =====
-- What `busyIntervalsFromEvents` of src/core/freebusy.cpp finds busy, against a description of its own
-- of the events that count, of their times and of a declined invitation.
use omacalendar.Base.{
  ℕ, ◌≤◌, ◌<◌, String, ◌≡◌, refl, ◌≢◌, ◌↔◌, ◌⊎◌, inl, inr, true, false, none, some, List, [], ◌∷◌,
  arith, Bool-cases, Any, str_eq_iff, Stamp, stamp_le, stamp_lt,
}
use omacalendar.Ipc.{
  JsonValue, undefined, null, fraction, boolean, number, text, array, object, JsonArray, no_item,
  item, JsonObject, value, to_string, to_bool, to_object,
}
use omacalendar.FreeBusy.Merge.{Holds, merge_busy_intervals-Any}
use omacalendar.FreeBusy.Events.{
  Event, QtZone, string_or, response_of, declined_by_self, is_free, span_of, clip, intervals_of,
  busy_intervals_from_events,
}

-- A text, or what stands for it where there is none.
abbrev pub IsTextOr : JsonValue → String → String → Type 0
IsTextOr v default r = (v ≡ text r) ⊎ (((t : String) → v ≢ text t) × (r ≡ default))

-- The answer of an attendee is its `responseStatus`, or if that is no text its `partstat`.
abbrev pub Answers : JsonObject → String → Type 0
Answers a r = IsTextOr (value a "responseStatus") (to_string (value a "partstat")) r

-- The first attendee that is the user has declined.
pub data HasDeclined (zone : QtZone) : JsonArray → Type 0 where
  here :
      {v : JsonValue} {vs : JsonArray} (r : String)
      → to_bool (value (to_object v) "self") ≡ true
      → Answers (to_object v) r
      → zone.to_lower r ≡ "declined"
      → HasDeclined zone (item v vs)
  later :
      {v : JsonValue} {vs : JsonArray}
      → to_bool (value (to_object v) "self") ≡ false
      → HasDeclined zone vs
      → HasDeclined zone (item v vs)

-- The event takes up time of the user.
abbrev pub Counts : QtZone → Event → Type 0
Counts zone e =
    (e.deleted ≡ false)
    × (zone.same_text e.status "cancelled" ≡ false)
    × (zone.same_text e.transparency "transparent" ≡ false)
    × (HasDeclined zone e.attendees → ⊥)

-- The time from which and to which it lasts: the days of an all-day event in the user's zone, a
-- floating time by the clock of that zone, or the times as they are.
abbrev pub Spans : QtZone → Event → Stamp → Stamp → Type 0
Spans zone e start end =
    ((e.all_day ≡ true) × (start ≡ zone.midnight e.start_date) × (end ≡ zone.midnight e.end_date))
    ⊎ ((e.all_day ≡ false)
        × (e.is_floating ≡ true)
        × (start ≡ zone.wall_clock e.start_utc)
        × (end ≡ zone.wall_clock e.end_utc))
    ⊎ ((e.all_day ≡ false) × (e.is_floating ≡ false) × (start ≡ e.start_utc) × (end ≡ e.end_utc))

-- The event counts and lasts at the time. An invalid start is before every time.
abbrev pub IsBusy : QtZone → ℕ → Event → Type 0
IsBusy zone t e =
    Counts zone e
    × ((start : Stamp) × (end : Stamp) × Spans zone e start end
        × (stamp_le start (some t) ≡ true)
        × (stamp_lt (some t) end ≡ true))

string_or_iff :
    (v : JsonValue) (default r : String) → IsTextOr v default r ↔ (r ≡ string_or v default)
string_or_iff undefined default r =
    ((λ h. elim h [ inl e ↦ cc | inr g ↦ g.1 ]), (λ e. inr ((λ t q. cc), e)))
string_or_iff null default r =
    ((λ h. elim h [ inl e ↦ cc | inr g ↦ g.1 ]), (λ e. inr ((λ t q. cc), e)))
string_or_iff fraction default r =
    ((λ h. elim h [ inl e ↦ cc | inr g ↦ g.1 ]), (λ e. inr ((λ t q. cc), e)))
string_or_iff (boolean b) default r =
    ((λ h. elim h [ inl e ↦ cc | inr g ↦ g.1 ]), (λ e. inr ((λ t q. cc), e)))
string_or_iff (number n) default r =
    ((λ h. elim h [ inl e ↦ cc | inr g ↦ g.1 ]), (λ e. inr ((λ t q. cc), e)))
string_or_iff (array a) default r =
    ((λ h. elim h [ inl e ↦ cc | inr g ↦ g.1 ]), (λ e. inr ((λ t q. cc), e)))
string_or_iff (object o) default r =
    ((λ h. elim h [ inl e ↦ cc | inr g ↦ g.1 ]), (λ e. inr ((λ t q. cc), e)))
string_or_iff (text s) default r =
    ((λ h. elim h [ inl e ↦ cc | inr g ↦ absurd (g.0 s refl) ]), (λ e. inl (cc)))

declined_of :
    (zone : QtZone) {vs : JsonArray} → HasDeclined zone vs → declined_by_self zone vs ≡ true
unfolding declined_by_self
declined_of zone (here {v} r self a e) =
    let same : r ≡ response_of (to_object v) = (string_or_iff _ _ r).0 a in
    rw self ((str_eq_iff (zone.to_lower (response_of (to_object v))) "declined").1 (cc (same, e)))
declined_of zone (later other h) = rw other (declined_of zone h)

declined_to :
    (zone : QtZone) (vs : JsonArray) → declined_by_self zone vs ≡ true → HasDeclined zone vs
unfolding declined_by_self
declined_to zone no_item e = absurd (ground (arith, e))
declined_to zone (item v vs) e = elim (Bool-cases (to_bool (value (to_object v) "self"))) [
  | inl self ↦
      here (response_of (to_object v)) self ((string_or_iff _ _ _).1 refl)
        ((str_eq_iff (zone.to_lower (response_of (to_object v))) "declined").0 (rw self at e))
  | inr other ↦ later other (declined_to zone vs (rw other at e))
]

is_free-Counts : (zone : QtZone) (e : Event) → (is_free zone e ≡ false) ↔ Counts zone e
is_free-Counts zone e = (
  (λ f. (ground arith, ground arith, ground arith, λ d. ground (arith, f, declined_of zone d))),
  (λ c. elim (Bool-cases (declined_by_self zone e.attendees)) [
    | inl d ↦ absurd (c.3 (declined_to zone e.attendees d))
    | inr d ↦ ground (arith, c.0, c.1, c.2, d)
  ]),
)

span_of-Spans :
    (zone : QtZone) (e : Event) (start end : Stamp)
    → Spans zone e start end ↔ ((start ≡ (span_of zone e).start) × (end ≡ (span_of zone e).end))
span_of-Spans zone e start end = (ground arith, ground arith)

Any-mono :
    (P Q : Event → Type 0)
    → ((e : Event) → P e → Q e)
    → (events : List Event) → Any P events
    → Any Q events
Any-mono P Q f [] a = a
Any-mono P Q f (e ∷ events) (inl p) = inl (f e p)
Any-mono P Q f (e ∷ events) (inr a) = inr (Any-mono P Q f events a)

-- By the code's own test and times.
abbrev IsTaken : QtZone → ℕ → Event → Type 0
IsTaken zone t e =
    (is_free zone e ≡ false)
    × (stamp_le (span_of zone e).start (some t) ≡ true)
    × (stamp_lt (some t) (span_of zone e).end ≡ true)

-- What is clipped covers the part in the range.
abbrev IsIn : ℕ → ℕ → ℕ → Stamp → Stamp → Type 0
IsIn from to t start end =
    from ≤ t × t < to × (stamp_le start (some t) ≡ true) × (stamp_lt (some t) end ≡ true)

clip-IsIn :
    (from to t : ℕ) (start end : Stamp)
    → Holds t (clip (some from) (some to) (record { start = start; end = end }))
      ↔ IsIn from to t start end
clip-IsIn from to t none none = ground arith
clip-IsIn from to t none (some v) = ground arith
clip-IsIn from to t (some u) none = ground arith
clip-IsIn from to t (some u) (some v) = ground arith

intervals_of-Any :
    (zone : QtZone) (from to t : ℕ) (events : List Event)
    → Any (Holds t) (intervals_of zone (some from) (some to) events)
      ↔ (from ≤ t × t < to × Any (IsTaken zone t) events)
unfolding intervals_of
intervals_of-Any zone from to t [] = ((λ a. absurd a), (λ a. absurd a.2))
intervals_of-Any zone from to t (e ∷ events) = elim (Bool-cases (is_free zone e)) [
  | inl f ↦ rw f (
    (λ a. let r = (intervals_of-Any zone from to t events).0 a in (r.0, r.1, inr r.2)),
    (λ a. elim a.2 [
      | inl b ↦ cc (b.0)
      | inr b ↦ (intervals_of-Any zone from to t events).1 (a.0, a.1, b)
    ]),
  )
  | inr f ↦ rw f (
    (λ a. elim a [
      | inl h ↦
          let r = (clip-IsIn from to t (span_of zone e).start (span_of zone e).end).0 h in
          (r.0, r.1, inl (refl, r.2, r.3))
      | inr b ↦ let r = (intervals_of-Any zone from to t events).0 b in (r.0, r.1, inr r.2)
    ]),
    (λ a. elim a.2 [
      | inl b ↦
          inl (
            (clip-IsIn from to t (span_of zone e).start (span_of zone e).end).1
              (a.0, a.1, b.1, b.2))
      | inr b ↦ inr ((intervals_of-Any zone from to t events).1 (a.0, a.1, b))
    ]),
  )
]

IsTaken-IsBusy : (zone : QtZone) (t : ℕ) (e : Event) → IsTaken zone t e → IsBusy zone t e
IsTaken-IsBusy zone t e p =
    let start = (span_of zone e).start in
    let end = (span_of zone e).end in
    (
      (is_free-Counts zone e).0 p.0,
      (start, end, (span_of-Spans zone e start end).1 (refl, refl), p.1, p.2),
    )

IsBusy-IsTaken : (zone : QtZone) (t : ℕ) (e : Event) → IsBusy zone t e → IsTaken zone t e
IsBusy-IsTaken zone t e (c, (start, end, s, from, to)) =
    let (p, q) = (span_of-Spans zone e start end).0 s in
    ((is_free-Counts zone e).1 c, cc (p, from), cc (q, to))

-- A time is busy exactly when it lies in the range and some event that takes up time lasts at it: one
-- that is not deleted, not cancelled and not marked as transparent, and whose first attendee that is
-- the user has not declined. An all-day event lasts over its days in the user's zone, a floating
-- one by the clock of that zone.
pub busy_intervals_from_events-Any :
    (zone : QtZone) (events : List Event) (from to t : ℕ)
    → Any (Holds t) (busy_intervals_from_events zone events (some from) (some to))
      ↔ (from ≤ t × t < to × Any (IsBusy zone t) events)
unfolding busy_intervals_from_events
busy_intervals_from_events-Any zone events from to t =
    let m = merge_busy_intervals-Any t (intervals_of zone (some from) (some to) events) in
    let i = intervals_of-Any zone from to t events in
    (
      (λ a.
          let (l, u, b) = i.0 (m.0 a) in
          (l, u, Any-mono (IsTaken zone t) (IsBusy zone t) (IsTaken-IsBusy zone t) events b)),
      (λ b. m.1 (
          i.1 (
            b.0,
            b.1,
            Any-mono (IsBusy zone t) (IsTaken zone t) (IsBusy-IsTaken zone t) events b.2,
          ))),
    )
