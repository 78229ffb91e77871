-- ===== src/Database/Reminders/Recovery.antt =====
-- A claim whose holder is gone is not lost: when its lease is over the reminder is due again.
use omacalendar.Base.{
  ℕ, ◌+◌, ◌≡◌, refl, inl, inr, true, false, some, List, [], ◌∷◌, arith, Bool-cases, All,
  update_where, count_where,
}
use omacalendar.Database.{ReminderJob, Store, ok, Sql}
use omacalendar.Database.Reminders.{rest_job, lease_is_over, recover_expired_reminder_deliveries}
use omacalendar.Database.Reminders.Rows.{IsConsistent, is_ready, AllConsistent}

rest_job-is_ready :
    (at : ℕ) (j : ReminderJob)
    → IsConsistent j
    → lease_is_over at j ≡ true
    → (is_ready (some at) j ≡ false) × (is_ready (some at) (rest_job j) ≡ true)
rest_job-is_ready at j v e = ground arith

count-rest :
    (at : ℕ) (js : List ReminderJob)
    → All IsConsistent js
    → (count_where (is_ready (some at)) (update_where (lease_is_over at) rest_job js)
        ≡ count_where (is_ready (some at)) js + count_where (lease_is_over at) js)
      × (count_where (lease_is_over at) (update_where (lease_is_over at) rest_job js) ≡ 0)
count-rest at [] h = (omega arith, refl)
count-rest at (j ∷ js) h = elim (Bool-cases (lease_is_over at j)) [
  | inl e ↦ ground (arith, rest_job-is_ready at j h.0 e, count-rest at js h.1)
  | inr e ↦ ground (arith, count-rest at js h.1)
]

-- A recovery that succeeds on consistent rows leaves no claim whose lease is over at its time, and every such
-- claim comes back as a reminder that can be claimed at that time: their number grows by just as
-- many.
pub recover_lem :
    (sql : Sql) (s : Store) (at : ℕ)
    → AllConsistent s
    → (recover_expired_reminder_deliveries sql s (some at)).1 ≡ ok tt
    → let s' = (recover_expired_reminder_deliveries sql s (some at)).0 in
      (count_where (is_ready (some at)) s'.reminder_jobs
        ≡ count_where (is_ready (some at)) s.reminder_jobs
          + count_where (lease_is_over at) s.reminder_jobs)
      × (count_where (lease_is_over at) s'.reminder_jobs ≡ 0)
unfolding recover_expired_reminder_deliveries
recover_lem sql s at h e = ground (arith, count-rest at s.reminder_jobs h)
