-- ===== src/Database/Reminders.antt =====
-- The reminder deliveries of src/core/database.cpp: claims with a lease, their completion, release
-- and recovery, snoozing, dismissal, and the query of what is due.
pub mod Rows
pub mod Lease
pub mod Recovery
pub mod Due
pub mod Revision
mod Tests
use omacalendar.Base.Int.{ℤ, pos_part}
use omacalendar.Base.{
  sort_by, ℕ, ◌+◌, ◌-◌, ◌*◌, min, max, String, Bool, true, false, not, ◌&&◌, ◌||◌, none, some, List,
  [], ◌∷◌, ltb, leb, ◌==◌, if◌then◌else◌, take, select, update_where, count_where, any, str_eq,
  is_empty, Stamp, is_valid, stamp_le, stamp_lt, stamp_eq,
}
use omacalendar.Database.{
  ReminderState, pending, snoozed, claimed, delivered, dismissed, ReminderJob, CalendarRow, Store,
  sql_error, rejected, Result, ok, failed, Sql, bump_change_revision, bump_if_changed,
}

abbrev pub is_pending : ReminderState → Bool
is_pending pending = true
is_pending _ = false

abbrev pub is_snoozed : ReminderState → Bool
is_snoozed snoozed = true
is_snoozed _ = false

abbrev pub is_claimed : ReminderState → Bool
is_claimed claimed = true
is_claimed _ = false

abbrev pub is_dismissed : ReminderState → Bool
is_dismissed dismissed = true
is_dismissed _ = false

-- An UPDATE of `reminder_jobs`, and whether it met a row.
abbrev pub update_jobs : (ReminderJob → Bool) → (ReminderJob → ReminderJob) → Store → Store
update_jobs test f s = record s { reminder_jobs = update_where test f s.reminder_jobs }

abbrev pub meets_job : (ReminderJob → Bool) → Store → Bool
meets_job test s = ltb 0 (count_where test s.reminder_jobs)

-- The SET clauses and the WHERE clauses of the statements.
abbrev pub clear_claim : ReminderState → ReminderJob → ReminderJob
clear_claim state j = record j {
  state = state;
  claimed_at = none;
  claim_token = "";
  lease_expires_at = none;
}

abbrev pub deliver_job : ℕ → ReminderJob → ReminderJob
deliver_job at j = record (clear_claim delivered j) { delivered_at = some at; snoozed_until = none }

-- `CASE WHEN snoozed_until<>'' THEN 'snoozed' ELSE 'pending' END`.
abbrev pub resting_state : ReminderJob → ReminderState
resting_state j = if is_valid j.snoozed_until then snoozed else pending

abbrev pub rest_job : ReminderJob → ReminderJob
rest_job j = clear_claim (resting_state j) j

abbrev pub snooze_job : ℕ → ReminderJob → ReminderJob
snooze_job until j = record (clear_claim snoozed j) {
  snoozed_until = some until;
  delivered_at = none;
}

abbrev pub can_claim : ℕ → Stamp → ReminderJob → Bool
can_claim id at j =
    j.id == id
    && ((is_pending j.state && stamp_le j.fire_at at)
        || (is_snoozed j.state && stamp_le j.snoozed_until at))

abbrev pub holds_claim : ℕ → String → ReminderJob → Bool
holds_claim id token j = j.id == id && is_claimed j.state && str_eq j.claim_token token

abbrev pub claim_job : Stamp → String → Stamp → ReminderJob → ReminderJob
claim_job at token lease j = record j {
  state = claimed;
  claimed_at = at;
  claim_token = token;
  lease_expires_at = lease;
}

-- The out parameter `claimed`, and the result.
unfoldable pub claim_reminder_delivery :
    Sql → Store → ℕ → String → Stamp → Stamp → Store × Bool × Result (Unit {0})
unfolding bump_if_changed
claim_reminder_delivery sql s id token claimed_at lease_expires_at =
    if is_empty token
      || not (is_valid claimed_at)
      || not (is_valid lease_expires_at)
      || stamp_le lease_expires_at claimed_at
    then (s, false, failed (rejected "A valid reminder claim token and lease are required"))
    else if not (sql 0)
    then (s, false, failed (sql_error "claim reminder delivery"))
    else let changed = meets_job (can_claim id claimed_at) s in
      let (s', r) =
        bump_if_changed changed (sql 1) tt
          (update_jobs (can_claim id claimed_at) (claim_job claimed_at token lease_expires_at) s) in
      (s', changed, r)

unfoldable pub finish_reminder_delivery :
    Sql → Store → ℕ → String → Stamp → Store × Result (Unit {0})
unfolding bump_change_revision
finish_reminder_delivery sql s id token none =
    (s, failed (rejected "A valid reminder delivery claim and completion time are required"))
finish_reminder_delivery sql s id token (some delivered_at) =
    if is_empty token
    then (s, failed (rejected "A valid reminder delivery claim and completion time are required"))
    else if not (sql 0)
    then (s, failed (sql_error "finish reminder delivery"))
    else if not (meets_job (holds_claim id token) s)
    then (s, failed (rejected "Reminder delivery claim is no longer active"))
    else bump_change_revision (sql 1) tt
        (update_jobs (holds_claim id token) (deliver_job delivered_at) s)

unfoldable pub release_reminder_delivery : Sql → Store → ℕ → String → Store × Result (Unit {0})
unfolding bump_if_changed
release_reminder_delivery sql s id token =
    if is_empty token
    then (s, failed (rejected "A reminder delivery claim token is required"))
    else if not (sql 0)
    then (s, failed (sql_error "release reminder delivery"))
    else bump_if_changed (meets_job (holds_claim id token) s) (sql 1) tt
        (update_jobs (holds_claim id token) rest_job s)

-- `state='claimed' AND (lease_expires_at='' OR lease_expires_at<=?)`; the empty text is the least.
abbrev pub lease_is_over : ℕ → ReminderJob → Bool
lease_is_over at j = is_claimed j.state && stamp_le j.lease_expires_at (some at)

unfoldable pub recover_expired_reminder_deliveries : Sql → Store → Stamp → Store × Result (Unit {0})
unfolding bump_if_changed
recover_expired_reminder_deliveries sql s none =
    (s, failed (rejected "A valid reminder recovery time is required"))
recover_expired_reminder_deliveries sql s (some at) =
    if not (sql 0)
    then (s, failed (sql_error "recover reminder claims"))
    else bump_if_changed (meets_job (lease_is_over at) s) (sql 1) tt
        (update_jobs (lease_is_over at) rest_job s)

abbrev pub can_snooze : ℕ → ReminderJob → Bool
can_snooze id j = j.id == id && not (is_dismissed j.state)

-- The statement that both snoozes end with.
pub run_snooze : Sql → Store → ℕ → ℕ → Store × Result (Unit {0})
unfolding bump_change_revision
run_snooze sql s id until =
    if not (sql 0)
    then (s, failed (sql_error "snooze reminder"))
    else if not (meets_job (can_snooze id) s)
    then (s, failed (rejected "Reminder not found"))
    else bump_change_revision (sql 1) tt (update_jobs (can_snooze id) (snooze_job until) s)

-- The choice of minutes is compared with positive numbers only, so a negative one is refused as 0 is.
unfoldable pub snooze_reminder_at : Sql → Store → ℕ → ℕ → ℕ → Store × Result (Unit {0})
unfolding run_snooze
snooze_reminder_at sql s id minutes now =
    if not ((minutes == 5) || (minutes == 10) || (minutes == 30) || (minutes == 60))
    then (s, failed (rejected "Snooze must be 5, 10, 30, or 60 minutes"))
    else run_snooze sql s id (now + minutes * 60 * 1000)

abbrev pub day_ms : ℕ
day_ms = 24 * 60 * 60 * 1000

unfoldable pub snooze_reminder_until : Sql → Store → ℕ → Stamp → ℕ → Store × Result (Unit {0})
unfolding run_snooze
snooze_reminder_until sql s id none now =
    (s, failed (rejected "Snooze must end within the next day"))
snooze_reminder_until sql s id (some until) now =
    if leb until now || ltb (now + day_ms) until
    then (s, failed (rejected "Snooze must end within the next day"))
    else run_snooze sql s id until

unfoldable pub dismiss_reminder : Sql → Store → ℕ → Store × Result (Unit {0})
unfolding bump_change_revision
dismiss_reminder sql s id =
    if not (sql 0)
    then (s, failed (sql_error "dismiss reminder"))
    else if not (meets_job (λ j. j.id == id) s)
    then (s, failed (rejected "Reminder not found"))
    else bump_change_revision (sql 1) tt (update_jobs (λ j. j.id == id) (clear_claim dismissed) s)

abbrev pub can_mark : ℕ → ReminderJob → Bool
can_mark id j = j.id == id && (is_pending j.state || is_snoozed j.state || is_claimed j.state)

unfoldable pub mark_reminder_delivered : Sql → Store → ℕ → ℕ → Store × Result (Unit {0})
unfolding bump_if_changed
mark_reminder_delivered sql s id now =
    if not (sql 0)
    then (s, failed (sql_error "complete reminder delivery"))
    else bump_if_changed (meets_job (can_mark id) s) (sql 1) tt
        (update_jobs (can_mark id) (deliver_job now) s)

-- The calendar of a job's event as the statements join it: through the keys of `events` and
-- `calendars`.
abbrev pub in_calendar : (CalendarRow → Bool) → Store → ReminderJob → Bool
in_calendar test s j =
    any (λ e. str_eq e.id j.event_id && any (λ c. str_eq c.id e.calendar_id && test c) s.calendars)
      s.events

-- The EXISTS over `event_instances`: the occurrence starts after `now`, or has no time and starts
-- on a day after today.
abbrev pub occurrence_is_ahead : Store → ℕ → ℕ → ReminderJob → Bool
occurrence_is_ahead s now today j =
    any
      (λ i.
        str_eq i.event_id j.event_id
        && str_eq i.recurrence_id j.occurrence_id
        && (stamp_lt (some now) i.start_utc
            || (not (is_valid i.start_utc)
                && is_valid i.start_date
                && stamp_lt (some today) i.start_date)))
      s.event_instances

-- `kStaleReminderGraceSeconds`.
abbrev pub stale_reminder_grace_seconds : ℕ
stale_reminder_grace_seconds = 2 * 3600

-- The WHERE clause of `dismissStaleReminders`. A time is never below 0, so nothing is lost where the
-- subtraction stops at 0.
abbrev pub is_stale : Store → ℕ → ℕ → ℕ → ReminderJob → Bool
is_stale s now today grace_seconds j =
    is_pending j.state
    && ((stamp_le j.fire_at (some now) && in_calendar (λ c. c.ignore_alerts) s j)
        || (stamp_lt j.fire_at (some (now - grace_seconds * 1000))
            && not (occurrence_is_ahead s now today j)))

-- The number dismissed, or a failure for -1.
unfoldable pub dismiss_stale_reminders : Sql → Store → ℕ → ℕ → ℕ → Store × Result ℕ
unfolding bump_if_changed
dismiss_stale_reminders sql s now today grace_seconds =
    if not (sql 0)
    then (s, failed (sql_error "dismiss stale reminders"))
    else let test = is_stale s now today grace_seconds in
      bump_if_changed (meets_job test s) (sql 1) (count_where test s.reminder_jobs)
        (update_jobs test (clear_claim dismissed) s)

-- The WHERE clause of `dueReminders`.
abbrev pub is_due : Store → ℕ → ℕ → ReminderJob → Bool
is_due s now today j =
    in_calendar (λ c. not c.ignore_alerts) s j
    && ((is_pending j.state
          && stamp_le j.fire_at (some now)
          && (stamp_le (some (now - stale_reminder_grace_seconds * 1000)) j.fire_at
              || occurrence_is_ahead s now today j))
        || (is_snoozed j.state && stamp_le j.snoozed_until (some now)))

-- `COALESCE(NULLIF(snoozed_until,''),fire_at)`.
abbrev pub effective_time : ReminderJob → Stamp
effective_time j = if is_valid j.snoozed_until then j.snoozed_until else j.fire_at

-- The ORDER BY of `dueReminders`: snoozed jobs, then pending ones within the grace window, then the
-- others; each by time and id.
abbrev pub due_rank : ℕ → ReminderJob → ℕ
due_rank now j =
    if is_snoozed j.state
    then 0
    else if is_pending j.state
        && stamp_le (some (now - stale_reminder_grace_seconds * 1000)) j.fire_at
    then 1
    else 2

abbrev pub comes_before : ℕ → ReminderJob → ReminderJob → Bool
comes_before now j k =
    ltb (due_rank now j) (due_rank now k)
    || ((due_rank now j == due_rank now k)
        && (stamp_lt (effective_time j) (effective_time k)
            || (stamp_eq (effective_time j) (effective_time k) && ltb j.id k.id)))

-- `qBound(1, limit, 500)`.
abbrev pub bounded_limit : ℤ → ℕ
bounded_limit limit = max 1 (min (pos_part limit) 500)

unfoldable pub due_reminders : Sql → Store → ℕ → ℕ → ℤ → Result (List ReminderJob)
due_reminders sql s now today limit =
    if not (sql 0)
    then failed (sql_error "list due reminders")
    else ok (
        take (bounded_limit limit)
          (sort_by (comes_before now) (select (is_due s now today) s.reminder_jobs)))

-- The operations that write `reminder_jobs`, as calls.
pub data Call : Type 0 where
  claims : ℕ → String → Stamp → Stamp → Call
  finishes : ℕ → String → Stamp → Call
  releases : ℕ → String → Call
  recovers : Stamp → Call
  snoozes : ℕ → ℕ → ℕ → Call
  snoozes_until : ℕ → Stamp → ℕ → Call
  dismisses : ℕ → Call
  dismisses_stale : ℕ → ℕ → ℕ → Call
  marks_delivered : ℕ → ℕ → Call

-- Whether an operation returned true (for the sweep: not -1).
abbrev pub succeeded {ℓ} : {A : Type ℓ} → Result A → Bool
succeeded (ok a) = true
succeeded (failed f) = false

abbrev pub returned {ℓ} : {A : Type ℓ} → Store × Result A → Store × Bool
returned (s, r) = (s, succeeded r)

abbrev pub returned_claim : Store × Bool × Result (Unit {0}) → Store × Bool
returned_claim (s, c, r) = (s, succeeded r)

unfoldable pub step : Sql → Store → Call → Store × Bool
step sql s (claims id token at lease) =
    returned_claim (claim_reminder_delivery sql s id token at lease)
step sql s (finishes id token at) = returned (finish_reminder_delivery sql s id token at)
step sql s (releases id token) = returned (release_reminder_delivery sql s id token)
step sql s (recovers at) = returned (recover_expired_reminder_deliveries sql s at)
step sql s (snoozes id minutes now) = returned (snooze_reminder_at sql s id minutes now)
step sql s (snoozes_until id until now) = returned (snooze_reminder_until sql s id until now)
step sql s (dismisses id) = returned (dismiss_reminder sql s id)
step sql s (dismisses_stale now today grace) =
    returned (dismiss_stale_reminders sql s now today grace)
step sql s (marks_delivered id now) = returned (mark_reminder_delivered sql s id now)

-- Calls in turn, each with what its statements do.
unfoldable pub run : Store → List (Sql × Call) → Store
run s [] = s
run s ((sql, c) ∷ cs) = run (step sql s c).0 cs
