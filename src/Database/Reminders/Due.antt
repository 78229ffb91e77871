-- ===== src/Database/Reminders/Due.antt =====
-- The sweep of stale reminders and the query of due ones agree.
use omacalendar.Base.{ℕ, ◌≡◌, true, false, not, some, arith, stamp_le}
use omacalendar.Database.{pending, ReminderJob, Store}
use omacalendar.Database.Reminders.{in_calendar, stale_reminder_grace_seconds, is_stale, is_due}

-- The job's event stands in a calendar that is not muted, and in no muted one.
abbrev IsAudible : Store → ReminderJob → Type 0
IsAudible s j =
    (in_calendar (λ c. not c.ignore_alerts) s j ≡ true)
    × (in_calendar (λ c. c.ignore_alerts) s j ≡ false)

-- A pending reminder whose time has come, in a calendar that is not muted, is due exactly when a sweep with
-- the grace of `kStaleReminderGraceSeconds` does not dismiss it.
is_due-is_stale :
    (s : Store) (now today : ℕ) (j : ReminderJob)
    → j.state ≡ pending
    → stamp_le j.fire_at (some now) ≡ true
    → IsAudible s j
    → is_due s now today j ≡ not (is_stale s now today stale_reminder_grace_seconds j)
is_due-is_stale s now today j e f a = ground arith
