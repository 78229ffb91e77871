-- ===== src/Database/Reminders/Rows.antt =====
-- What every row of `reminder_jobs` satisfies, whatever operations run.
use omacalendar.Base.{
  ℕ, ◌+◌, ◌*◌, String, ◌≡◌, refl, Bool, true, false, ◌&&◌, ◌||◌, none, some, arith, ◌==◌, All,
  All-update_where, is_empty, Stamp, is_valid, stamp_le,
}
use omacalendar.Database.{
  ReminderState, pending, snoozed, claimed, delivered, dismissed, ReminderJob, Store, Sql,
}
use omacalendar.Database.Reminders.{
  is_pending, is_snoozed, update_jobs, clear_claim, deliver_job, rest_job, snooze_job, can_claim,
  holds_claim, claim_job, claim_reminder_delivery, finish_reminder_delivery,
  release_reminder_delivery, lease_is_over, recover_expired_reminder_deliveries, can_snooze,
  snooze_reminder_at, snooze_reminder_until, dismiss_reminder, can_mark, mark_reminder_delivered,
  is_stale, dismiss_stale_reminders, effective_time, Call, claims, finishes, releases, recovers,
  snoozes, snoozes_until, dismisses, dismisses_stale, marks_delivered, step,
}

abbrev pub IsUnclaimed : ReminderJob → Type 0
IsUnclaimed j = (j.claimed_at ≡ none) × (j.claim_token ≡ "") × (j.lease_expires_at ≡ none)

-- What the columns of a row hold in each state.
abbrev pub Fits : ReminderState → ReminderJob → Type 0
Fits pending j = IsUnclaimed j × (j.snoozed_until ≡ none)
Fits snoozed j = IsUnclaimed j × (is_valid j.snoozed_until ≡ true)
Fits claimed j =
    (is_empty j.claim_token ≡ false)
    × (is_valid j.claimed_at ≡ true)
    × (stamp_le j.lease_expires_at j.claimed_at ≡ false)
    × (stamp_le (effective_time j) j.claimed_at ≡ true)
Fits delivered j = IsUnclaimed j × (j.snoozed_until ≡ none) × (is_valid j.delivered_at ≡ true)
Fits dismissed j = IsUnclaimed j

abbrev pub IsConsistent : ReminderJob → Type 0
IsConsistent j = Fits j.state j

-- A pending or snoozed job whose time has come.
abbrev pub is_ready : Stamp → ReminderJob → Bool
is_ready at j =
    (is_pending j.state && stamp_le j.fire_at at)
    || (is_snoozed j.state && stamp_le j.snoozed_until at)

claim_job-Fits :
    (at lease : Stamp) (token : String) (state : ReminderState) (j : ReminderJob)
    → j.state ≡ state
    → Fits state j
    → is_ready at j ≡ true
    → is_empty token ≡ false
    → is_valid at ≡ true
    → stamp_le lease at ≡ false
    → IsConsistent (claim_job at token lease j)
claim_job-Fits at lease token pending j e v r n a l = ground arith
claim_job-Fits at lease token snoozed j e v r n a l = ground arith
claim_job-Fits at lease token _ j e v r n a l = ground arith

rest_job-Fits : (j : ReminderJob) → IsConsistent (rest_job j)
rest_job-Fits j = ground arith

-- Every row of the table is consistent.
abbrev pub AllConsistent : Store → Type 0
AllConsistent s = All IsConsistent s.reminder_jobs

update_jobs-AllConsistent :
    (test : ReminderJob → Bool) (f : ReminderJob → ReminderJob) (s : Store)
    → ((j : ReminderJob) → IsConsistent j → test j ≡ true → IsConsistent (f j))
    → AllConsistent s
    → AllConsistent (update_jobs test f s)
update_jobs-AllConsistent test f s hit h =
    All-update_where IsConsistent IsConsistent test f hit (λ j v e. v) s.reminder_jobs h

claim-AllConsistent :
    (sql : Sql) (s : Store) (id : ℕ) (token : String) (at lease : Stamp)
    → AllConsistent s
    → AllConsistent (claim_reminder_delivery sql s id token at lease).0
unfolding claim_reminder_delivery
claim-AllConsistent sql s id token at lease h = ground (
  arith,
  λ (n : is_empty token ≡ false) (a : is_valid at ≡ true) (l : stamp_le lease at ≡ false).
      update_jobs-AllConsistent (can_claim id at) (claim_job at token lease) s
        (λ j v e. claim_job-Fits at lease token j.state j refl v (ground arith) n a l) h,
)

deliver-AllConsistent :
    (test : ReminderJob → Bool) (now : ℕ) (s : Store)
    → AllConsistent s
    → AllConsistent (update_jobs test (deliver_job now) s)
deliver-AllConsistent test now s =
    update_jobs-AllConsistent test (deliver_job now) s (λ j v e. ((refl, refl, refl), refl, refl))

rest-AllConsistent :
    (test : ReminderJob → Bool) (s : Store)
    → AllConsistent s
    → AllConsistent (update_jobs test rest_job s)
rest-AllConsistent test s = update_jobs-AllConsistent test rest_job s (λ j v e. rest_job-Fits j)

snooze-AllConsistent :
    (test : ReminderJob → Bool) (until : ℕ) (s : Store)
    → AllConsistent s
    → AllConsistent (update_jobs test (snooze_job until) s)
snooze-AllConsistent test until s =
    update_jobs-AllConsistent test (snooze_job until) s (λ j v e. ((refl, refl, refl), refl))

dismiss-AllConsistent :
    (test : ReminderJob → Bool) (s : Store)
    → AllConsistent s
    → AllConsistent (update_jobs test (clear_claim dismissed) s)
dismiss-AllConsistent test s =
    update_jobs-AllConsistent test (clear_claim dismissed) s (λ j v e. (refl, refl, refl))

-- Every operation, whatever its arguments and whichever of its statements run, keeps the columns of every
-- row in agreement with its state: a claim is complete and its lease ends after it began, no other
-- state has one, a snoozed row has its time, and a delivered one its time of delivery and no snooze.
pub step-AllConsistent :
    (sql : Sql) (s : Store) (c : Call) → AllConsistent s → AllConsistent (step sql s c).0
unfolding step finish_reminder_delivery release_reminder_delivery
    recover_expired_reminder_deliveries snooze_reminder_at snooze_reminder_until dismiss_reminder
    dismiss_stale_reminders mark_reminder_delivered
step-AllConsistent sql s (claims id token at lease) h =
    claim-AllConsistent sql s id token at lease h
step-AllConsistent sql s (finishes id token none) h = h
step-AllConsistent sql s (finishes id token (some at)) h =
    ground (arith, deliver-AllConsistent (holds_claim id token) at s h)
step-AllConsistent sql s (releases id token) h =
    ground (arith, rest-AllConsistent (holds_claim id token) s h)
step-AllConsistent sql s (recovers none) h = h
step-AllConsistent sql s (recovers (some at)) h =
    ground (arith, rest-AllConsistent (lease_is_over at) s h)
step-AllConsistent sql s (snoozes id minutes now) h =
    ground (arith, snooze-AllConsistent (can_snooze id) (now + minutes * 60 * 1000) s h)
step-AllConsistent sql s (snoozes_until id none now) h = h
step-AllConsistent sql s (snoozes_until id (some until) now) h =
    ground (arith, snooze-AllConsistent (can_snooze id) until s h)
step-AllConsistent sql s (dismisses id) h =
    ground (arith, dismiss-AllConsistent (λ j. j.id == id) s h)
step-AllConsistent sql s (dismisses_stale now today grace) h =
    ground (arith, dismiss-AllConsistent (is_stale s now today grace) s h)
step-AllConsistent sql s (marks_delivered id now) h =
    ground (arith, deliver-AllConsistent (can_mark id) now s h)
