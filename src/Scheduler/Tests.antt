-- ===== src/Scheduler/Tests.antt =====
-- One due reminder of one event.
use omacalendar.Base.{
  sort_by, ◌≡◌, refl, ◌⊎◌, true, false, none, some, [], ◌∷◌, map, length, str_eq,
}
use omacalendar.Database.{pending, dismissed, ReminderJob, EventRow, empty_event, empty_store, Sql}
use omacalendar.Database.Reminders.{
  claim_reminder_delivery, recover_expired_reminder_deliveries, dismiss_reminder,
  dismiss_stale_reminders, due_reminders,
}
use omacalendar.Scheduler.{Scheduler, Surroundings, event_of, deliver_reminder, Check, check_now}
use omacalendar.Scheduler.Results.{Answer, on_notification_result}
use omacalendar.Scheduler.Claims.{
  IsWithheld, IsSentFor, IsShown, deliver_reminder-IsSent, IsReleased,
  on_notification_result-IsReleased,
}

abbrev job : ReminderJob
job = record {
  id = 1;
  event_id = "e";
  occurrence_id = "";
  fingerprint = "f";
  fire_at = some 1000;
  snoozed_until = none;
  state = pending;
  claimed_at = none;
  claim_token = "";
  lease_expires_at = none;
  delivered_at = none;
}

abbrev scheduler : Scheduler
scheduler = record {
  store = record empty_store {
    reminder_jobs = job ∷ [];
    events = record empty_event { id = "e"; calendar_id = "home" } ∷ [];
    calendars =
        record { id = "home"; account_id = "a"; enabled = true; ignore_alerts = false } ∷ [];
  };
  sleeping = false;
  pending = [];
  active = [];
  invitation_baseline = [];
  sent = [];
}

abbrev runs : Sql
runs k = true

abbrev surroundings : Surroundings
surroundings = record {
  now = 2000;
  token = "t";
  event_runs = true;
  removal_runs = true;
  dismissal = runs;
  claim = runs;
  same_text = str_eq;
  occurrence_started = λ event job now. false;
}

abbrev refusal : Answer
refusal = record {
  fingerprint = "reminder:f";
  token = "t";
  notification_id = 0;
  error_message = "";
  now = 2500;
  sql = runs;
  member_sql = λ k. runs;
}

deliver_reminder-IsSent_example :
    let out = deliver_reminder surroundings job scheduler in
    IsWithheld scheduler out
    ⊎ ((event : EventRow) × IsShown surroundings (event_of true scheduler.store "e") event
        × IsSentFor surroundings job scheduler out event)
deliver_reminder-IsSent_example = deliver_reminder-IsSent surroundings job scheduler

sent_test : length (deliver_reminder surroundings job scheduler).0.sent ≡ 1
unfolding deliver_reminder claim_reminder_delivery
sent_test = refl

on_notification_result-IsReleased_example :
    IsReleased surroundings job
      (on_notification_result refusal
        (deliver_reminder surroundings job scheduler).0).store.reminder_jobs
unfolding deliver_reminder claim_reminder_delivery
on_notification_result-IsReleased_example =
    on_notification_result-IsReleased surroundings job scheduler refusal refl refl refl refl refl
      refl

abbrev check : Check
check = record { now = 2000; today = 0; recovery = runs; dismissal = runs; query = runs }

check_test : (check_now check (λ k. surroundings) scheduler).1 ≡ true
unfolding check_now recover_expired_reminder_deliveries dismiss_stale_reminders due_reminders
    sort_by claim_reminder_delivery
check_test = refl

-- The event cannot be read: the reminder is dismissed, as if the event had been deleted.
unread_event_test :
    map
      (λ (j : ReminderJob). j.state)
      (deliver_reminder
        (record surroundings { event_runs = false })
        job
        scheduler).0.store.reminder_jobs
    ≡ dismissed ∷ []
unfolding deliver_reminder dismiss_reminder
unread_event_test = refl
