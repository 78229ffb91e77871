-- ===== src/Database/Notifications/Atomic.antt =====
-- The recovery of notifications at a restart is all or nothing.
use omacalendar.Base.{
  ℕ, ◌≡◌, refl, true, false, some, List, [], ◌∷◌, arith, update_where, count_where,
}
use omacalendar.Database.{ReminderJob, NotificationDelivery, Store, Sql}
use omacalendar.Database.Reminders.{meets_job, rest_job, lease_is_over, succeeded}
use omacalendar.Database.Notifications.{
  is_claimed_delivery, meets_delivery, retry_notification, recover_claimed_notification_deliveries,
}

retried_deliveries :
    (ds : List NotificationDelivery)
    → count_where
        (λ d. is_claimed_delivery d.state)
        (update_where (λ d. is_claimed_delivery d.state) retry_notification ds)
      ≡ 0
retried_deliveries [] = refl
retried_deliveries (d ∷ ds) = ground (arith, retried_deliveries ds)

rested_jobs :
    (at : ℕ) (js : List ReminderJob)
    → count_where (lease_is_over at) (update_where (lease_is_over at) rest_job js) ≡ 0
rested_jobs at [] = refl
rested_jobs at (j ∷ js) = ground (arith, rested_jobs at js)

-- A recovery that fails, at any of its statements, leaves the store as it was; one that succeeds
-- leaves no claimed notification and no reminder claim whose lease is over.
pub recover_claimed_atomic :
    (sql : Sql) (s : Store) (at : ℕ)
    → let r = recover_claimed_notification_deliveries sql s (some at) in
      (succeeded r.1 ≡ false → r.0 ≡ s)
      × (succeeded r.1 ≡ true
          → (meets_delivery (λ d. is_claimed_delivery d.state) r.0 ≡ false)
            × (meets_job (lease_is_over at) r.0 ≡ false))
unfolding recover_claimed_notification_deliveries
recover_claimed_atomic sql s at =
    ground (arith, retried_deliveries s.notification_deliveries, rested_jobs at s.reminder_jobs)
