-- ===== src/Database/Reminders/Revision.antt =====
-- The change revision: clients that poll it see every change of a reminder.
use omacalendar.Base.{
  ℕ, suc, String, ◌≡◌, refl, ◌⊎◌, Bool, true, none, some, List, [], ◌∷◌, arith, Bool-cases,
  update_where, count_where, Stamp,
}
use omacalendar.Database.{dismissed, ReminderJob, Store, Sql, bump_if_changed}
use omacalendar.Database.Reminders.{
  update_jobs, meets_job, clear_claim, deliver_job, rest_job, can_claim, holds_claim, claim_job,
  claim_reminder_delivery, finish_reminder_delivery, release_reminder_delivery, lease_is_over,
  recover_expired_reminder_deliveries, snooze_reminder_at, snooze_reminder_until, dismiss_reminder,
  can_mark, mark_reminder_delivered, is_stale, dismiss_stale_reminders, Call, claims, finishes,
  releases, recovers, snoozes, snoozes_until, dismisses, dismisses_stale, marks_delivered,
  succeeded, step,
}

-- Nothing changed, or the revision went up by one.
abbrev IsAnnounced : Store → Store → Type 0
IsAnnounced s s' = (s' ≡ s) ⊎ (s'.change_revision ≡ suc s.change_revision)

update_where-unmet :
    (test : ReminderJob → Bool) (f : ReminderJob → ReminderJob) (js : List ReminderJob)
    → count_where test js ≡ 0
    → update_where test f js ≡ js
update_where-unmet test f [] e = refl
update_where-unmet test f (j ∷ js) e = ground (arith, update_where-unmet test f js)

bump_if_changed-IsAnnounced :
    {A : Type 0} (a : A) (runs : Bool) (test : ReminderJob → Bool) (f : ReminderJob → ReminderJob)
    (s : Store)
    → succeeded (bump_if_changed (meets_job test s) runs a (update_jobs test f s)).1 ≡ true
    → IsAnnounced s (bump_if_changed (meets_job test s) runs a (update_jobs test f s)).0
unfolding bump_if_changed
bump_if_changed-IsAnnounced a runs test f s e =
    ground (arith, update_where-unmet test f s.reminder_jobs, Bool-cases runs)

claim-IsAnnounced :
    (sql : Sql) (s : Store) (id : ℕ) (token : String) (at lease : Stamp)
    → succeeded (claim_reminder_delivery sql s id token at lease).2 ≡ true
    → IsAnnounced s (claim_reminder_delivery sql s id token at lease).0
unfolding claim_reminder_delivery
claim-IsAnnounced sql s id token at lease e = ground (
  arith,
  update_where-unmet (can_claim id at) (claim_job at token lease) s.reminder_jobs,
  Bool-cases (sql 1),
)

-- An operation that returns true has changed nothing, or advanced the change revision by one.
step-IsAnnounced :
    (sql : Sql) (s : Store) (c : Call) → (step sql s c).1 ≡ true → IsAnnounced s (step sql s c).0
unfolding step finish_reminder_delivery release_reminder_delivery
    recover_expired_reminder_deliveries snooze_reminder_at snooze_reminder_until dismiss_reminder
    dismiss_stale_reminders mark_reminder_delivered
step-IsAnnounced sql s (claims id token at lease) e = claim-IsAnnounced sql s id token at lease e
step-IsAnnounced sql s (finishes id token none) e = cc
step-IsAnnounced sql s (finishes id token (some at)) e = ground arith
step-IsAnnounced sql s (releases id token) e =
    ground (arith, bump_if_changed-IsAnnounced tt (sql 1) (holds_claim id token) rest_job s)
step-IsAnnounced sql s (recovers none) e = cc
step-IsAnnounced sql s (recovers (some at)) e =
    ground (arith, bump_if_changed-IsAnnounced tt (sql 1) (lease_is_over at) rest_job s)
step-IsAnnounced sql s (snoozes id minutes now) e = ground arith
step-IsAnnounced sql s (snoozes_until id none now) e = cc
step-IsAnnounced sql s (snoozes_until id (some until) now) e = ground arith
step-IsAnnounced sql s (dismisses id) e = ground arith
step-IsAnnounced sql s (dismisses_stale now today grace) e = ground (
  arith,
  bump_if_changed-IsAnnounced (count_where (is_stale s now today grace) s.reminder_jobs) (sql 1)
      (is_stale s now today grace) (clear_claim dismissed) s,
)
step-IsAnnounced sql s (marks_delivered id now) e =
    ground (arith, bump_if_changed-IsAnnounced tt (sql 1) (can_mark id) (deliver_job now) s)
