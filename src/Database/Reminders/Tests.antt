-- ===== src/Database/Reminders/Tests.antt =====
-- Tests of the reminder deliveries, and their theorems at concrete inputs.
use omacalendar.Base.Int.{pos}
use omacalendar.Base.{
  sort_by, ℕ, ◌+◌, String, ◌≡◌, refl, inr, Bool, true, false, none, some, List, [], ◌∷◌, map, arith,
  ltb, count_where, str_eq_iff, Stamp,
}
use omacalendar.Database.{
  pending, claimed, ReminderJob, empty_event, Store, empty_store, Result, ok, Sql,
}
use omacalendar.Database.Reminders.{
  snooze_job, claim_reminder_delivery, finish_reminder_delivery, lease_is_over,
  recover_expired_reminder_deliveries, due_reminders, Call, claims, finishes, recovers, dismisses,
  succeeded, step, run,
}
use omacalendar.Database.Reminders.Rows.{is_ready, AllConsistent, step-AllConsistent}
use omacalendar.Database.Reminders.Lease.{claim_exclusive}
use omacalendar.Database.Reminders.Recovery.{recover_lem}

abbrev job : ℕ → ℕ → ReminderJob
job id fire_at = record {
  id = id;
  event_id = "event";
  occurrence_id = "";
  fingerprint = "f";
  fire_at = some fire_at;
  snoozed_until = none;
  state = pending;
  claimed_at = none;
  claim_token = "";
  lease_expires_at = none;
  delivered_at = none;
}

abbrev two_jobs : Store
two_jobs = record empty_store {
  reminder_jobs = job 1 1000 ∷ job 2 9000000 ∷ [];
  events = record empty_event { id = "event"; calendar_id = "home" } ∷ [];
  calendars = record { id = "home"; account_id = "a"; enabled = true; ignore_alerts = false } ∷ [];
}

abbrev runs : Sql
runs k = true

-- The first job, claimed by "a" at 2000 until 62000.
abbrev claim_one : Store × Bool × Result (Unit {0})
claim_one = claim_reminder_delivery runs two_jobs 1 "a" (some 2000) (some 62000)

abbrev others : List (Sql × Call)
others =
    (runs, claims 1 "b" (some 3000) (some 63000))
    ∷ (runs, recovers (some 61999))
    ∷ (runs, finishes 1 "b" (some 4000))
    ∷ (runs, dismisses 2)
    ∷ []

claim_one_state : map (λ j. j.state) claim_one.0.reminder_jobs ≡ claimed ∷ pending ∷ []
unfolding claim_reminder_delivery
claim_one_state = refl

too_early : (claim_reminder_delivery runs two_jobs 2 "a" (some 2000) (some 62000)).1 ≡ false
unfolding claim_reminder_delivery
too_early = refl

snoozed_first :
    due_reminders runs
      (record two_jobs {
        reminder_jobs = job 1 9000 ∷ snooze_job 9500 (job 3 10) ∷ job 2 5000 ∷ job 4 99999 ∷ [];
      })
      10000
      0
      (pos 100)
    ≡ ok (snooze_job 9500 (job 3 10) ∷ job 2 5000 ∷ job 1 9000 ∷ [])
unfolding due_reminders sort_by
snoozed_first = refl

-- A claim whose last statement does not run is there, but the change revision does not tell.
claim_unannounced :
    let sql : Sql = λ k. ltb k 1 in
    let r = claim_reminder_delivery sql two_jobs 1 "a" (some 2000) (some 62000) in
    (r.1 ≡ true) × (succeeded r.2 ≡ false) × (r.0.change_revision ≡ 0)
unfolding claim_reminder_delivery
claim_unannounced = (refl, refl, refl)

two_jobs-AllConsistent : AllConsistent two_jobs
two_jobs-AllConsistent = (((refl, refl, refl), refl), (((refl, refl, refl), refl), tt))

step-AllConsistent_example :
    AllConsistent (step runs two_jobs (claims 1 "a" (some 2000) (some 62000))).0
step-AllConsistent_example =
    step-AllConsistent runs two_jobs (claims 1 "a" (some 2000) (some 62000)) two_jobs-AllConsistent

claim_exclusive_example :
    let s' = run claim_one.0 others in
    ((sql' : Sql) (t : String) (at' l : Stamp)
      → (claim_reminder_delivery sql' s' 1 t at' l).1 ≡ false)
    × ((sql' : Sql) (now : ℕ)
        → (sql' 0 ≡ true) × (sql' 1 ≡ true)
        → (finish_reminder_delivery sql' s' 1 "a" (some now)).1 ≡ ok tt)
unfolding claim_reminder_delivery
claim_exclusive_example =
    claim_exclusive runs two_jobs 1 "a" (some 2000) 62000 others (omega arith) refl
      (tt, (omega arith, (inr (λ e. ground (arith, str_eq_iff "b" "a")), (omega arith, tt)))) refl

recover_lem_example :
    let s = claim_one.0 in
    let s' = (recover_expired_reminder_deliveries runs s (some 62000)).0 in
    (count_where (is_ready (some 62000)) s'.reminder_jobs
      ≡ count_where (is_ready (some 62000)) s.reminder_jobs
        + count_where (lease_is_over 62000) s.reminder_jobs)
    × (count_where (lease_is_over 62000) s'.reminder_jobs ≡ 0)
unfolding claim_reminder_delivery recover_expired_reminder_deliveries
recover_lem_example =
    recover_lem runs claim_one.0 62000 ((refl, refl, refl, refl), (((refl, refl, refl), refl), tt))
      refl
