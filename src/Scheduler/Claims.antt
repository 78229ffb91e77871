-- ===== src/Scheduler/Claims.antt =====
-- A reminder is sent under a claim, and is due again if the notification service refuses it.
use mathlib.Core.Path.{subst}
use omacalendar.Scheduler.{
  Scheduler, Surroundings, reminder_claim_lease_seconds, has_token, pending_for, deliver_claimed,
  deliver_claiming, is_outdated, deliver_checked, series_removal, event_of, deliver_event,
  deliver_reminder,
}
use omacalendar.Scheduler.Results.{
  Answer, is_failure, release_delivery, answer_found, on_notification_result,
}
use mathlib.Core.Path.{subst}
use omacalendar.Base.{
  ℕ, ◌+◌, ◌*◌, String, ◌≡◌, refl, sym, ap, ◌∙◌, ◌⊎◌, inl, inr, Bool, true, false, not, ◌&&◌, ◌||◌,
  Option, none, some, List, [], ◌∷◌, ◌++◌, arith, ltb, ◌==◌, Bool-cases, select, update_where,
  count_where, first, str_eq, str_eq_iff, is_empty, str_append, Stamp, is_valid, stamp_le,
}
use omacalendar.Database.{
  ReminderJob, EventRow, Store, Result, ok, failed, Sql, bump_change_revision, bump_if_changed,
}
use omacalendar.Database.Reminders.{
  is_pending, is_snoozed, update_jobs, meets_job, rest_job, can_claim, holds_claim, claim_job,
  claim_reminder_delivery, release_reminder_delivery,
}

met_after :
    (test seen : ReminderJob → Bool) (f : ReminderJob → ReminderJob)
    → ((j : ReminderJob) → test j ≡ true → seen (f j) ≡ true)
    → (jobs : List ReminderJob) → ltb 0 (count_where test jobs) ≡ true
    → ltb 0 (count_where seen (update_where test f jobs)) ≡ true
met_after test seen f hit [] h = cc
met_after test seen f hit (j ∷ jobs) h = elim (Bool-cases (test j)) [
  | inl e ↦ rw (e, hit j e) (ground arith)
  | inr e ↦ rw e (ground (arith, met_after test seen f hit jobs (rw e at h)))
]

none_after :
    (test : ReminderJob → Bool) (f : ReminderJob → ReminderJob)
    → ((j : ReminderJob) → test j ≡ true → test (f j) ≡ false)
    → (jobs : List ReminderJob) → ltb 0 (count_where test (update_where test f jobs)) ≡ false
none_after test f hit [] = refl
none_after test f hit (j ∷ jobs) = elim (Bool-cases (test j)) [
  | inl e ↦ rw (e, hit j e) (none_after test f hit jobs)
  | inr e ↦ rw (e, e) (none_after test f hit jobs)
]

claim_holds :
    (id : ℕ) (token : String) (at lease : Stamp) (j : ReminderJob)
    → can_claim id at j ≡ true
    → holds_claim id token (claim_job at token lease j) ≡ true
claim_holds id token at lease j e = ground (arith, str_eq_iff token token)

-- What a claim says: if it met a row and succeeded, a row holds it.
abbrev IsClaimed : ℕ → String → Store × Bool × Result (Unit {0}) → Type 0
IsClaimed id token (store, met, ok u) = met ≡ true → meets_job (holds_claim id token) store ≡ true
IsClaimed id token (store, met, failed f) = Unit

claim_lem :
    (sql : Sql) (s : Store) (id : ℕ) (token : String) (at lease : Stamp)
    → IsClaimed id token (claim_reminder_delivery sql s id token at lease)
unfolding claim_reminder_delivery bump_change_revision
claim_lem sql s id token at lease =
    elim (Bool-cases
      (is_empty token || not (is_valid at) || not (is_valid lease) || stamp_le lease at)) [
        | inl e ↦ rw e tt
        | inr e ↦ elim (Bool-cases (sql 0)) [
          | inr f ↦ rw (e, f) tt
          | inl f ↦ elim (Bool-cases (meets_job (can_claim id at) s)) [
            | inr m ↦ rw (e, f, m) (λ x. cc)
            | inl m ↦ elim (Bool-cases (sql 1)) [
              | inr g ↦ rw (e, f, m, g) tt
              | inl g ↦
                  rw (e, f, m, g)
                    (λ _.
                      met_after (can_claim id at) (holds_claim id token) (claim_job at token lease)
                        (claim_holds id token at lease) s.reminder_jobs m)
            ]
          ]
        ]
      ]

-- Nothing is handed to the notification service, and nothing new is pending.
abbrev pub IsWithheld : Scheduler → Scheduler × Bool → Type 0
IsWithheld s out = (out.1 ≡ false) × (out.0.sent ≡ s.sent) × (out.0.pending ≡ s.pending)

-- One delivery of the event is handed over: a row holds the claim, and the delivery is pending under
-- the token.
abbrev pub IsSentFor : Surroundings → ReminderJob → Scheduler → Scheduler × Bool → EventRow → Type 0
IsSentFor env job s out event =
    (out.1 ≡ true)
    × (out.0.sent ≡ s.sent ++ pending_for env event job ∷ [])
    × (meets_job (holds_claim job.id env.token) out.0.store ≡ true)
    × (first (select (has_token env.token) out.0.pending) ≡ some (pending_for env event job))

-- The event that was read, where it may be told of.
abbrev pub IsShown : Surroundings → Option EventRow → EventRow → Type 0
IsShown env found event =
    (found ≡ some event)
    × (event.deleted ≡ false)
    × (env.same_text event.status "cancelled" ≡ false)

abbrev IsSound :
    Surroundings → Option EventRow → ReminderJob → Scheduler → Scheduler × Bool → Type 0
IsSound env found job s out =
    IsWithheld s out
    ⊎ ((event : EventRow) × IsShown env found event × IsSentFor env job s out event)

deliver_claimed-IsSound :
    (env : Surroundings) (found : Option EventRow) (event : EventRow) (job : ReminderJob)
    (c : Store × Bool × Result (Unit {0})) (s : Scheduler)
    → IsShown env found event
    → IsClaimed job.id env.token c
    → IsSound env found job s (deliver_claimed env event job c s)
unfolding deliver_claimed
deliver_claimed-IsSound env found event job (store, met, failed f) s shown h =
    inl (refl, refl, refl)
deliver_claimed-IsSound env found event job (store, false, ok u) s shown h = inl (refl, refl, refl)
deliver_claimed-IsSound env found event job (store, true, ok u) s shown h =
    inr (event, shown, (refl, refl, h refl, rw ((str_eq_iff env.token env.token).1 refl) refl))

deliver_checked-IsSound :
    (env : Surroundings) (found : Option EventRow) (event : EventRow) (job : ReminderJob)
    (r : Result Bool) (s : Scheduler)
    → IsShown env found event
    → IsSound env found job s (deliver_checked env event job r s)
unfolding deliver_checked deliver_claiming
deliver_checked-IsSound env found event job (failed f) s shown = inl (refl, refl, refl)
deliver_checked-IsSound env found event job (ok true) s shown = inl (refl, refl, refl)
deliver_checked-IsSound env found event job (ok false) s shown =
    elim (Bool-cases (is_outdated env event job)) [
      | inl o ↦ rw o (inl (refl, refl, refl))
      | inr o ↦ rw o (
          deliver_claimed-IsSound env found event job _ s shown (
            claim_lem env.claim s.store job.id env.token (some env.now)
              (some (env.now + reminder_claim_lease_seconds * 1000))))
    ]

deliver_event-IsSound :
    (env : Surroundings) (found : Option EventRow) (job : ReminderJob) (s : Scheduler)
    → IsSound env found job s (deliver_event env found job s)
unfolding deliver_event
deliver_event-IsSound env none job s = inl (refl, refl, refl)
deliver_event-IsSound env (some event) job s =
    elim (Bool-cases
      (is_empty event.id || event.deleted || env.same_text event.status "cancelled")) [
        | inl o ↦ rw o (inl (refl, refl, refl))
        | inr o ↦
            let shown : IsShown env (some event) event = (refl, ground arith, ground arith) in
            rw o (
              deliver_checked-IsSound env (some event) event job (series_removal env event s) s
                shown)
      ]

-- A delivery that returns true has handed one notification to the service: of the event that was
-- read, which is neither deleted nor cancelled, under a claim that a row of the database holds with
-- the delivery's token, and pending under that token. A delivery that returns false has handed
-- over nothing and leaves what is pending as it was.
pub deliver_reminder-IsSent :
    (env : Surroundings) (job : ReminderJob) (s : Scheduler)
    → let out = deliver_reminder env job s in
      IsWithheld s out
      ⊎ ((event : EventRow) × IsShown env (event_of env.event_runs s.store job.event_id) event
          × IsSentFor env job s out event)
unfolding deliver_reminder
deliver_reminder-IsSent env job s =
    deliver_event-IsSound env (event_of env.event_runs s.store job.event_id) job s

-- What is claimed and pending once a delivery returned true.
abbrev IsPending : Surroundings → ReminderJob → Scheduler → Type 0
IsPending env job s =
    (meets_job (holds_claim job.id env.token) s.store ≡ true)
    × ((event : EventRow) × (first (select (has_token env.token) s.pending)
          ≡ some (pending_for env event job)))

sound_IsPending :
    (env : Surroundings) (found : Option EventRow) (job : ReminderJob) (s : Scheduler)
    (out : Scheduler × Bool)
    → out.1 ≡ true
    → IsSound env found job s out
    → IsPending env job out.0
sound_IsPending env found job s out e (inl h) = absurd (ground (arith, e, h.0))
sound_IsPending env found job s out e (inr (event, shown, h)) = (h.2, (event, h.3))

abbrev pub waits : ℕ → ReminderJob → Bool
waits id j = j.id == id && (is_pending j.state || is_snoozed j.state)

reminder_jobs-bump_if_changed :
    (changed runs : Bool) (s : Store)
    → (bump_if_changed changed runs (tt {0}) s).0.reminder_jobs ≡ s.reminder_jobs
unfolding bump_if_changed
reminder_jobs-bump_if_changed true true s = refl
reminder_jobs-bump_if_changed true false s = refl
reminder_jobs-bump_if_changed false runs s = refl

released_rows :
    (sql : Sql) (s : Store) (id : ℕ) (token : String)
    → is_empty token ≡ false
    → sql 0 ≡ true
    → (release_reminder_delivery sql s id token).0.reminder_jobs
      ≡ update_where (holds_claim id token) rest_job s.reminder_jobs
unfolding release_reminder_delivery
released_rows sql s id token e f =
    rw (e, f)
      (reminder_jobs-bump_if_changed (meets_job (holds_claim id token) s) (sql 1)
        (update_jobs (holds_claim id token) rest_job s))

rest_waits :
    (id : ℕ) (token : String) (j : ReminderJob)
    → holds_claim id token j ≡ true
    → waits id (rest_job j) ≡ true
rest_waits id token j e = ground arith

rest_holds_not :
    (id : ℕ) (token : String) (j : ReminderJob)
    → holds_claim id token j ≡ true
    → holds_claim id token (rest_job j) ≡ false
rest_holds_not id token j e = ground arith

-- No row holds the claim, and a row with the id waits.
abbrev pub IsReleased : Surroundings → ReminderJob → List ReminderJob → Type 0
IsReleased env job jobs =
    (ltb 0 (count_where (holds_claim job.id env.token) jobs) ≡ false)
    × (ltb 0 (count_where (waits job.id) jobs) ≡ true)

answer_found-IsReleased :
    (env : Surroundings) (event : EventRow) (job : ReminderJob) (s : Scheduler) (a : Answer)
    → meets_job (holds_claim job.id env.token) s.store ≡ true
    → a.fingerprint ≡ str_append "reminder:" job.fingerprint
    → is_failure a ≡ true
    → a.sql 0 ≡ true
    → is_empty env.token ≡ false
    → IsReleased env job (answer_found a (some (pending_for env event job)) s).store.reminder_jobs
unfolding answer_found release_delivery
answer_found-IsReleased env event job s a held f fails runs t =
    let named : str_eq (str_append "reminder:" job.fingerprint) a.fingerprint ≡ true =
      (str_eq_iff (str_append "reminder:" job.fingerprint) a.fingerprint).1 (sym f) in
    rw (named, fails)
      (subst (IsReleased env job) (sym (released_rows a.sql s.store job.id env.token t runs)) (
        none_after (holds_claim job.id env.token) rest_job (rest_holds_not job.id env.token)
            s.store.reminder_jobs,
        met_after (holds_claim job.id env.token) (waits job.id) rest_job
            (rest_waits job.id env.token) s.store.reminder_jobs held,
      ))

-- A reminder that the notification service refuses is not lost: when the failure of what was sent
-- comes back, with the token (not empty) and the fingerprint it was sent under, and the UPDATE that
-- releases the claim runs, no row holds the claim any more, and a row of the reminder is pending or
-- snoozed again.
pub on_notification_result-IsReleased :
    (env : Surroundings) (job : ReminderJob) (s : Scheduler) (a : Answer)
    → (deliver_reminder env job s).1 ≡ true
    → a.token ≡ env.token
    → a.fingerprint ≡ str_append "reminder:" job.fingerprint
    → is_failure a ≡ true
    → a.sql 0 ≡ true
    → is_empty env.token ≡ false
    → IsReleased env job
        (on_notification_result a (deliver_reminder env job s).0).store.reminder_jobs
unfolding on_notification_result
on_notification_result-IsReleased env job s a sends same f fails runs t =
    let s1 = (deliver_reminder env job s).0 in
    let (held, (event, found)) =
      sound_IsPending env (event_of env.event_runs s.store job.event_id) job s
        (deliver_reminder env job s) sends (deliver_reminder-IsSent env job s) in
    let found' : first (select (has_token a.token) s1.pending) ≡ some (pending_for env event job) =
      ap (λ k. first (select (has_token k) s1.pending)) same ∙ found in
    subst (λ p. IsReleased env job (answer_found a p s1).store.reminder_jobs) (sym found')
      (answer_found-IsReleased env event job s1 a held f fails runs t)
