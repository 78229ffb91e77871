-- ===== src/Scheduler/Results.antt =====
-- `ReminderScheduler::onNotificationResult` of src/reminders/reminderscheduler.cpp: the answer of the
-- notification service to something that was sent.
use omacalendar.Base.{
  ℕ, suc, String, Bool, not, ◌||◌, Option, none, some, List, [], ◌∷◌, ◌==◌, if◌then◌else◌, select,
  delete_where, any, first, str_eq, is_empty,
}
use omacalendar.Database.{Store, Sql}
use omacalendar.Database.Reminders.{finish_reminder_delivery, release_reminder_delivery}
use omacalendar.Database.Notifications.{finish_notification_delivery, release_notification_delivery}
use omacalendar.Scheduler.{
  DeliveryKind, reminder, invitation, invitation_digest, PendingDelivery, Scheduler, has_token,
  set_store,
}

-- A notification id of 0, or an error, is a failure. The k-th member of a digest has its own statements.
pub record Answer : Type 0 where
  pub fingerprint : String
  pub token : String
  pub notification_id : ℕ
  pub error_message : String
  pub now : ℕ
  pub sql : Sql
  pub member_sql : ℕ → Sql

abbrev pub is_failure : Answer → Bool
is_failure a = not (is_empty a.error_message) || (a.notification_id == 0)

abbrev pub release_members : Answer → ℕ → List String → Store → Store
release_members a k [] s = s
release_members a k (f ∷ fs) s =
    release_members a (suc k) fs (release_notification_delivery (a.member_sql k) s f).0

-- `finishDigestMembers`: a member that cannot be finished does not stop the others.
abbrev pub finish_members : Answer → ℕ → List String → Store → Store
finish_members a k [] s = s
finish_members a k (f ∷ fs) s =
    finish_members a (suc k) fs (finish_notification_delivery (a.member_sql k) s f (some a.now)).0

abbrev pub remove_baselines : List String → List (String × String) → List (String × String)
remove_baselines ids = delete_where (λ b. any (λ id. str_eq b.0 id) ids)

abbrev pub insert_baseline : String → String → List (String × String) → List (String × String)
insert_baseline id fingerprint bs = (id, fingerprint) ∷ delete_where (λ b. str_eq b.0 id) bs

-- What is done on the database for a failure, and for a success.
unfoldable pub release_delivery : Answer → DeliveryKind → PendingDelivery → Scheduler → Scheduler
release_delivery a reminder p s =
    set_store (release_reminder_delivery a.sql s.store p.reminder_id p.delivery_token).0 s
release_delivery a invitation_digest p s = record s {
  store = release_members a 0 p.member_fingerprints s.store;
  invitation_baseline = remove_baselines p.member_event_ids s.invitation_baseline;
}
release_delivery a invitation p s =
    set_store (release_notification_delivery a.sql s.store p.fingerprint).0 s

unfoldable pub finish_delivery : Answer → DeliveryKind → PendingDelivery → Scheduler → Scheduler
finish_delivery a reminder p s =
    set_store (finish_reminder_delivery a.sql s.store p.reminder_id p.delivery_token (some a.now)).0
      s
finish_delivery a invitation_digest p s =
    set_store (finish_members a 0 p.member_fingerprints s.store) s
finish_delivery a invitation p s = record s {
  store = (finish_notification_delivery a.sql s.store p.fingerprint (some a.now)).0;
  invitation_baseline =
      if is_empty p.event_id
      then s.invitation_baseline
      else insert_baseline p.event_id p.fingerprint s.invitation_baseline;
}

abbrev pub set_active :
    ℕ → PendingDelivery → List (ℕ × PendingDelivery) → List (ℕ × PendingDelivery)
set_active id p ps = (id, p) ∷ delete_where (λ q. q.0 == id) ps

unfoldable pub answer_found : Answer → Option PendingDelivery → Scheduler → Scheduler
unfolding release_delivery finish_delivery
answer_found a none s = s
answer_found a (some p) s =
    let s' = record s { pending = delete_where (has_token a.token) s.pending } in
    let finished = finish_delivery a p.kind p s' in
    let released = release_delivery a p.kind p s' in
    if not (str_eq p.fingerprint a.fingerprint)
    then s
    else if is_failure a
    then released
    else record finished { active = set_active a.notification_id p s.active }

unfoldable pub on_notification_result : Answer → Scheduler → Scheduler
unfolding answer_found
on_notification_result a s = answer_found a (first (select (has_token a.token) s.pending)) s
