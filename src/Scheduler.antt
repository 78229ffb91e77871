-- ===== src/Scheduler.antt =====
-- `ReminderScheduler` of src/reminders/reminderscheduler.cpp: what is due is claimed in the database
-- and sent, and the answer of the notification service completes or releases the claim. The scan for
-- invitations is left out, and the texts of notifications with the link and the start of an
-- occurrence that a pending delivery keeps for them. The clock, the tokens and the comparison of texts
-- without case are arguments.
pub mod Results
pub mod Claims
mod Tests
use omacalendar.Base.Int.{pos}
use omacalendar.Base.{
  ℕ, suc, ◌+◌, ◌-◌, ◌*◌, String, Bool, true, false, ◌&&◌, ◌||◌, Option, none, some, List, [], ◌∷◌,
  ◌++◌, if◌then◌else◌, delete_where, str_eq, is_empty, str_append, Stamp, is_valid, stamp_le,
  stamp_lt,
}
use omacalendar.Database.{ReminderJob, EventRow, Store, Result, ok, failed, Sql}
use omacalendar.Database.Outbox.{find_event, has_pending_series_removal}
use omacalendar.Database.Reminders.{
  is_pending, claim_reminder_delivery, recover_expired_reminder_deliveries, dismiss_reminder,
  stale_reminder_grace_seconds, dismiss_stale_reminders, due_reminders,
}

pub data DeliveryKind : Type 0 where
  reminder invitation invitation_digest : DeliveryKind

pub record PendingDelivery : Type 0 where
  pub kind : DeliveryKind
  pub reminder_id : ℕ
  pub event_id : String
  pub occurrence_id : String
  pub fingerprint : String
  pub delivery_token : String
  pub lease_expires_at : Stamp
  pub member_fingerprints : List String
  pub member_event_ids : List String

-- `sent` is what was handed to the notification service.
pub record Scheduler : Type 0 where
  pub store : Store
  pub sleeping : Bool
  pub pending : List PendingDelivery
  pub active : List (ℕ × PendingDelivery)
  pub invitation_baseline : List (String × String)
  pub sent : List PendingDelivery

-- What one delivery meets: the clock, a new token, which statements run (the event, the dismissal,
-- the query of removals, the claim), QString's comparison without case, and whether the occurrence
-- of a reminder has started by a time (its id, read as a date or a time).
pub record Surroundings : Type 0 where
  pub now : ℕ
  pub token : String
  pub event_runs : Bool
  pub removal_runs : Bool
  pub dismissal : Sql
  pub claim : Sql
  pub same_text : String → String → Bool
  pub occurrence_started : EventRow → ReminderJob → ℕ → Bool

-- `kReminderClaimLeaseSeconds`.
abbrev pub reminder_claim_lease_seconds : ℕ
reminder_claim_lease_seconds = 2 * 60

-- `QHash::insert` and `erase`.
abbrev pub has_token : String → PendingDelivery → Bool
has_token token p = str_eq p.delivery_token token

abbrev pub insert_pending : PendingDelivery → List PendingDelivery → List PendingDelivery
insert_pending p ps = p ∷ delete_where (has_token p.delivery_token) ps

abbrev pub set_store : Store → Scheduler → Scheduler
set_store store s = record s { store = store }

-- A delivery that sends nothing but may dismiss the reminder.
abbrev pub dismiss : Surroundings → ReminderJob → Scheduler → Scheduler × Bool
dismiss env job s = (set_store (dismiss_reminder env.dismissal s.store job.id).0 s, false)

abbrev pub pending_for : Surroundings → EventRow → ReminderJob → PendingDelivery
pending_for env event job = record {
  kind = reminder;
  reminder_id = job.id;
  event_id = event.id;
  occurrence_id = job.occurrence_id;
  fingerprint = str_append "reminder:" job.fingerprint;
  delivery_token = env.token;
  lease_expires_at = some (env.now + reminder_claim_lease_seconds * 1000);
  member_fingerprints = [];
  member_event_ids = [];
}

abbrev pub send_pending : PendingDelivery → Scheduler → Scheduler
send_pending p s = record s { pending = insert_pending p s.pending; sent = s.sent ++ p ∷ [] }

-- After the claim: the store, whether a row was claimed, and the result.
unfoldable pub deliver_claimed :
    Surroundings
    → EventRow
    → ReminderJob
    → Store × Bool × Result (Unit {0})
    → Scheduler
    → Scheduler × Bool
deliver_claimed env event job (store, met, failed f) s = (set_store store s, false)
deliver_claimed env event job (store, false, ok u) s = (set_store store s, false)
deliver_claimed env event job (store, true, ok u) s =
    (send_pending (pending_for env event job) (set_store store s), true)

unfoldable pub deliver_claiming :
    Surroundings → EventRow → ReminderJob → Scheduler → Scheduler × Bool
unfolding deliver_claimed
deliver_claiming env event job s =
    deliver_claimed env event job
      (claim_reminder_delivery env.claim s.store job.id env.token (some env.now)
        (some (env.now + reminder_claim_lease_seconds * 1000)))
      s

-- A job that aged past the grace window since it was found due.
abbrev pub is_outdated : Surroundings → EventRow → ReminderJob → Bool
is_outdated env event job =
    is_pending job.state
    && stamp_lt job.fire_at (some (env.now - stale_reminder_grace_seconds * 1000))
    && env.occurrence_started event job env.now

unfoldable pub deliver_checked :
    Surroundings → EventRow → ReminderJob → Result Bool → Scheduler → Scheduler × Bool
unfolding deliver_claiming
deliver_checked env event job (failed f) s = (s, false)
deliver_checked env event job (ok true) s = (s, false)
deliver_checked env event job (ok false) s =
    if is_outdated env event job then dismiss env job s else deliver_claiming env event job s

abbrev pub series_removal : Surroundings → EventRow → Scheduler → Result Bool
series_removal env event s =
    if is_empty event.recurrence_id
    then ok false
    else has_pending_series_removal env.removal_runs s.store event.calendar_id event.uid

-- `event` gives an event with an empty id when there is none, and also when the statement fails.
abbrev pub event_of : Bool → Store → String → Option EventRow
event_of runs store id = if runs then find_event id store.events else none

unfoldable pub deliver_event :
    Surroundings → Option EventRow → ReminderJob → Scheduler → Scheduler × Bool
unfolding deliver_checked
deliver_event env none job s = dismiss env job s
deliver_event env (some event) job s =
    if is_empty event.id || event.deleted || env.same_text event.status "cancelled"
    then dismiss env job s
    else deliver_checked env event job (series_removal env event s) s

unfoldable pub deliver_reminder : Surroundings → ReminderJob → Scheduler → Scheduler × Bool
unfolding deliver_event
deliver_reminder env job s = deliver_event env (event_of env.event_runs s.store job.event_id) job s

-- The loop of `checkNow` over the due reminders, each in its surroundings; the second component is
-- `progressed`.
unfoldable pub deliver_all :
    (ℕ → Surroundings) → ℕ → List ReminderJob → Scheduler → Scheduler × Bool
unfolding deliver_reminder
deliver_all env k [] s = (s, false)
deliver_all env k (job ∷ jobs) s =
    let (s', sends) = deliver_reminder (env k) job s in
    let (s'', later) = deliver_all env (suc k) jobs s' in (s'', sends || later)

-- The sweep of expired deliveries.
abbrev pub is_expired : ℕ → PendingDelivery → Bool
is_expired now p = elim p.kind [
  | reminder ↦ is_valid p.lease_expires_at && stamp_le p.lease_expires_at (some now)
  | invitation ↦ false
  | invitation_digest ↦ false
]

abbrev pub sweep : ℕ → Scheduler → Scheduler
sweep now s = record s { pending = delete_where (is_expired now) s.pending }

-- The statements of a check, which it stops at the first error of.
pub record Check : Type 0 where
  pub now : ℕ
  pub today : ℕ
  pub recovery : Sql
  pub dismissal : Sql
  pub query : Sql

unfoldable pub check_due :
    (ℕ → Surroundings) → Result (List ReminderJob) → Scheduler → Scheduler × Bool
unfolding deliver_all
check_due env (failed f) s = (s, false)
check_due env (ok due) s = deliver_all env 0 due s

unfoldable pub check_swept :
    Check → (ℕ → Surroundings) → Store × Result ℕ → Scheduler → Scheduler × Bool
unfolding check_due
check_swept c env (store, failed f) s = (set_store store s, false)
check_swept c env (store, ok count) s =
    let s' = sweep c.now (set_store store s) in
    check_due env (due_reminders c.query s'.store c.now c.today (pos 100)) s'

unfoldable pub check_recovered :
    Check → (ℕ → Surroundings) → Store × Result (Unit {0}) → Scheduler → Scheduler × Bool
unfolding check_swept
check_recovered c env (store, failed f) s = (set_store store s, false)
check_recovered c env (store, ok u) s =
    check_swept c env
      (dismiss_stale_reminders c.dismissal store c.now c.today stale_reminder_grace_seconds)
      (set_store store s)

unfoldable pub check_now : Check → (ℕ → Surroundings) → Scheduler → Scheduler × Bool
unfolding check_recovered
check_now c env s =
    if s.sleeping
    then (s, false)
    else check_recovered c env (recover_expired_reminder_deliveries c.recovery s.store (some c.now))
        s
