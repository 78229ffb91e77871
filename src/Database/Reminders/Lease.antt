-- ===== src/Database/Reminders/Lease.antt =====
-- A claim is exclusive: who holds it, and for how long.
use omacalendar.Base.{
  ℕ, ◌+◌, ◌*◌, ◌≤◌, ◌<◌, String, ◌≡◌, refl, sym, ◌∙◌, ◌≢◌, ◌⊎◌, inl, inr, Bool, true, false, not,
  ◌&&◌, ◌||◌, none, some, List, [], ◌∷◌, arith, ◌==◌, ltb→lt, Bool-cases, All, update_where,
  count_where, All-update_where, str_eq_iff, is_empty, Stamp,
}
use omacalendar.Database.{claimed, dismissed, ReminderJob, Store, ok, Sql}
use omacalendar.Database.Reminders.{
  is_pending, is_snoozed, is_claimed, is_dismissed, update_jobs, meets_job, clear_claim,
  deliver_job, rest_job, snooze_job, can_claim, holds_claim, claim_job, claim_reminder_delivery,
  finish_reminder_delivery, release_reminder_delivery, lease_is_over,
  recover_expired_reminder_deliveries, snooze_reminder_at, snooze_reminder_until, dismiss_reminder,
  mark_reminder_delivered, is_stale, dismiss_stale_reminders, Call, claims, finishes, releases,
  recovers, snoozes, snoozes_until, dismisses, dismisses_stale, marks_delivered, step, run,
}

-- At most one row has the id (the primary key of the table).
abbrev pub IsUnique : ℕ → Store → Type 0
IsUnique id s = count_where (λ j. j.id == id) s.reminder_jobs ≤ 1

-- A row with the id is there, and it is claimed under the token, up to the end of the lease.
abbrev pub HoldsClaim : ℕ → String → ℕ → ReminderJob → Type 0
HoldsClaim id token lease j =
    j.id ≡ id → (j.state ≡ claimed) × (j.claim_token ≡ token) × (j.lease_expires_at ≡ some lease)

abbrev pub IsHeld : ℕ → String → ℕ → Store → Type 0
IsHeld id token lease s =
    All (HoldsClaim id token lease) s.reminder_jobs
    × (0 < count_where (λ j. j.id == id) s.reminder_jobs)

-- A call that leaves the claim alone: a claim, a sweep, a completion or a release of another reminder
-- or under another token, a recovery before the lease is over, and whatever the user does with
-- other reminders.
abbrev pub IsForeign : ℕ → String → ℕ → Call → Type 0
IsForeign id token lease (claims i t at l) = Unit {0}
IsForeign id token lease (finishes i t at) = (i ≢ id) ⊎ (t ≢ token)
IsForeign id token lease (releases i t) = (i ≢ id) ⊎ (t ≢ token)
IsForeign id token lease (recovers none) = Unit {0}
IsForeign id token lease (recovers (some at)) = at < lease
IsForeign id token lease (snoozes i minutes now) = i ≢ id
IsForeign id token lease (snoozes_until i until now) = i ≢ id
IsForeign id token lease (dismisses i) = i ≢ id
IsForeign id token lease (dismisses_stale now today grace) = Unit {0}
IsForeign id token lease (marks_delivered i now) = i ≢ id

-- An update that keeps the ids keeps how many rows have one.
count-update_where :
    (id : ℕ) (test : ReminderJob → Bool) (f : ReminderJob → ReminderJob) (js : List ReminderJob)
    → ((j : ReminderJob) → (f j).id ≡ j.id)
    → count_where (λ j. j.id == id) (update_where test f js) ≡ count_where (λ j. j.id == id) js
count-update_where id test f [] keep = refl
count-update_where id test f (j ∷ js) keep =
    ground (arith, keep j, count-update_where id test f js keep)

-- An update that does not meet the claimed row leaves it held.
update_jobs-IsHeld :
    (id : ℕ) (token : String) (lease : ℕ) (test : ReminderJob → Bool)
    (f : ReminderJob → ReminderJob) (s : Store)
    → ((j : ReminderJob) → (f j).id ≡ j.id)
    → ((j : ReminderJob) → HoldsClaim id token lease j → j.id ≡ id → test j ≡ false)
    → IsHeld id token lease s
    → IsHeld id token lease (update_jobs test f s)
update_jobs-IsHeld id token lease test f s keep miss (h, n) = (
  All-update_where (HoldsClaim id token lease) (HoldsClaim id token lease) test f
      (λ j held hit same. cc (miss j held (sym (keep j) ∙ same))) (λ j held e. held) s.reminder_jobs
      h,
  omega (arith, count-update_where id test f s.reminder_jobs keep),
)

module _ (id : ℕ) (token : String) (lease : ℕ) (s : Store) (held : IsHeld id token lease s) where
  claim-IsHeld :
      (sql : Sql) (i : ℕ) (t : String) (at l : Stamp)
      → IsHeld id token lease (claim_reminder_delivery sql s i t at l).0
  unfolding claim_reminder_delivery
  claim-IsHeld sql i t at l = ground (
    arith,
    update_jobs-IsHeld id token lease (can_claim i at) (claim_job at t l) s (λ j. refl)
        (λ j c e. ground (arith, c e)) held,
  )

  holds_claim-IsHeld :
      (i : ℕ) (t : String) (f : ReminderJob → ReminderJob)
      → ((j : ReminderJob) → (f j).id ≡ j.id)
      → (i ≢ id) ⊎ (t ≢ token)
      → IsHeld id token lease (update_jobs (holds_claim i t) f s)
  holds_claim-IsHeld i t f keep other =
      update_jobs-IsHeld id token lease (holds_claim i t) f s keep
        (λ j c e. ground (arith, c e, str_eq_iff j.claim_token t)) held

  other_id-IsHeld :
      (i : ℕ) (rest : ReminderJob → Bool) (f : ReminderJob → ReminderJob)
      → ((j : ReminderJob) → (f j).id ≡ j.id)
      → i ≢ id
      → IsHeld id token lease (update_jobs (λ j. j.id == i && rest j) f s)
  other_id-IsHeld i rest f keep other =
      update_jobs-IsHeld id token lease (λ j. j.id == i && rest j) f s keep (λ j c e. ground arith)
        held

  step-IsHeld :
      (sql : Sql) (c : Call) → IsForeign id token lease c → IsHeld id token lease (step sql s c).0
  unfolding step finish_reminder_delivery release_reminder_delivery
      recover_expired_reminder_deliveries snooze_reminder_at snooze_reminder_until dismiss_reminder
      dismiss_stale_reminders mark_reminder_delivered
  step-IsHeld sql (claims i t at l) w = claim-IsHeld sql i t at l
  step-IsHeld sql (finishes i t none) w = held
  step-IsHeld sql (finishes i t (some at)) w =
      ground (arith, holds_claim-IsHeld i t (deliver_job at) (λ j. refl) w)
  step-IsHeld sql (releases i t) w = ground (arith, holds_claim-IsHeld i t rest_job (λ j. refl) w)
  step-IsHeld sql (recovers none) w = held
  step-IsHeld sql (recovers (some at)) w = ground (
    arith,
    update_jobs-IsHeld id token lease (lease_is_over at) rest_job s (λ j. refl)
        (λ j c e. ground (arith, c e)) held,
  )
  step-IsHeld sql (snoozes i minutes now) w = ground (
    arith,
    other_id-IsHeld i (λ j. not (is_dismissed j.state)) (snooze_job (now + minutes * 60 * 1000))
        (λ j. refl) w,
  )
  step-IsHeld sql (snoozes_until i none now) w = held
  step-IsHeld sql (snoozes_until i (some until) now) w =
      ground (
        arith,
        other_id-IsHeld i (λ j. not (is_dismissed j.state)) (snooze_job until) (λ j. refl) w,
      )
  step-IsHeld sql (dismisses i) w = ground (
    arith,
    update_jobs-IsHeld id token lease (λ j. j.id == i) (clear_claim dismissed) s (λ j. refl)
        (λ j c e. ground arith) held,
  )
  step-IsHeld sql (dismisses_stale now today grace) w = ground (
    arith,
    update_jobs-IsHeld id token lease (is_stale s now today grace) (clear_claim dismissed) s
        (λ j. refl) (λ j c e. ground (arith, c e)) held,
  )
  step-IsHeld sql (marks_delivered i now) w = ground (
    arith,
    other_id-IsHeld i (λ j. is_pending j.state || is_snoozed j.state || is_claimed j.state)
        (deliver_job now) (λ j. refl) w,
  )

run-IsHeld :
    (id : ℕ) (token : String) (lease : ℕ) (s : Store) (cs : List (Sql × Call))
    → All (λ (c : Sql × Call). IsForeign id token lease c.1) cs
    → IsHeld id token lease s
    → IsHeld id token lease (run s cs)
unfolding run
run-IsHeld id token lease s [] w h = h
run-IsHeld id token lease s ((sql, c) ∷ cs) w h =
    run-IsHeld id token lease (step sql s c).0 cs w.1 (step-IsHeld id token lease s h sql c w.0)

-- A claim takes every row with the id, since there is only one.
module _ (id : ℕ) (token : String) (at : Stamp) (lease : ℕ) where
  abbrev after_claim : List ReminderJob → List ReminderJob
  after_claim = update_where (can_claim id at) (claim_job at token (some lease))

  count_can_claim-le :
      (js : List ReminderJob) → count_where (can_claim id at) js ≤ count_where (λ j. j.id == id) js
  count_can_claim-le [] = omega arith
  count_can_claim-le (j ∷ js) = ground (arith, count_can_claim-le js)

  absent-HoldsClaim :
      (js : List ReminderJob)
      → count_where (λ j. j.id == id) js ≡ 0
      → All (HoldsClaim id token lease) (after_claim js)
  absent-HoldsClaim [] n = tt
  absent-HoldsClaim (j ∷ js) n = (ground arith, absent-HoldsClaim js (ground arith))

  claimed-HoldsClaim :
      (js : List ReminderJob)
      → count_where (λ j. j.id == id) js ≤ 1
      → 0 < count_where (can_claim id at) js
      → All (HoldsClaim id token lease) (after_claim js)
  claimed-HoldsClaim [] n m = absurd (omega arith)
  claimed-HoldsClaim (j ∷ js) n m = elim (Bool-cases (j.id == id)) [
    | inl e ↦ (ground (arith, count_can_claim-le js), absent-HoldsClaim js (ground arith))
    | inr e ↦ (ground arith, claimed-HoldsClaim js (ground arith) (ground arith))
  ]

  taken-IsHeld :
      (s : Store)
      → IsUnique id s
      → meets_job (can_claim id at) s ≡ true
      → IsHeld id token lease (update_jobs (can_claim id at) (claim_job at token (some lease)) s)
  taken-IsHeld s u m = (
    claimed-HoldsClaim s.reminder_jobs u (ltb→lt _ _ m),
    omega (
      arith,
      ltb→lt _ _ m,
      count_can_claim-le s.reminder_jobs,
      count-update_where id (can_claim id at) (claim_job at token (some lease)) s.reminder_jobs
          (λ j. refl),
    ),
  )

  claim_reminder_delivery-IsHeld :
      (sql : Sql) (s : Store)
      → IsUnique id s
      → (claim_reminder_delivery sql s id token at (some lease)).1 ≡ true
      → IsHeld id token lease (claim_reminder_delivery sql s id token at (some lease)).0
  unfolding claim_reminder_delivery
  claim_reminder_delivery-IsHeld sql s u e = ground (arith, taken-IsHeld s u)

module _ (id : ℕ) (token : String) (lease : ℕ) where
  held_unclaimable :
      (at : Stamp) (js : List ReminderJob)
      → All (HoldsClaim id token lease) js
      → count_where (can_claim id at) js ≡ 0
  held_unclaimable at [] h = refl
  held_unclaimable at (j ∷ js) h = ground (arith, h.0, held_unclaimable at js h.1)

  held_finishable :
      (js : List ReminderJob)
      → All (HoldsClaim id token lease) js
      → count_where (holds_claim id token) js ≡ count_where (λ j. j.id == id) js
  held_finishable [] h = refl
  held_finishable (j ∷ js) h =
      ground (arith, h.0, str_eq_iff j.claim_token token, held_finishable js h.1)

  -- While a claim is held nobody claims the reminder again, the holder included.
  claim-held :
      (sql : Sql) (s : Store) (t : String) (at l : Stamp)
      → IsHeld id token lease s
      → (claim_reminder_delivery sql s id t at l).1 ≡ false
  unfolding claim_reminder_delivery
  claim-held sql s t at l h = ground (arith, held_unclaimable at s.reminder_jobs h.0)

  finish-held :
      (sql : Sql) (s : Store) (at : ℕ)
      → IsHeld id token lease s
      → is_empty token ≡ false
      → (sql 0 ≡ true) × (sql 1 ≡ true)
      → (finish_reminder_delivery sql s id token (some at)).1 ≡ ok tt
  unfolding finish_reminder_delivery
  finish-held sql s at h n r = ground (arith, held_finishable s.reminder_jobs h.0)

-- After a claim that reports success, under a token and a lease, on a table where the id is a key, and after
-- any run of calls that are foreign to it (others' claims, sweeps, completions and releases under other
-- tokens, recoveries before the end of the lease, whatever the user does with other reminders):
-- every further claim of the reminder reports failure, and the holder's completion succeeds when its
-- statements run.
pub claim_exclusive :
    (sql : Sql) (s : Store) (id : ℕ) (token : String) (at : Stamp) (lease : ℕ)
    (cs : List (Sql × Call))
    → IsUnique id s
    → (claim_reminder_delivery sql s id token at (some lease)).1 ≡ true
    → All (λ (c : Sql × Call). IsForeign id token lease c.1) cs
    → is_empty token ≡ false
    → let s' = run (claim_reminder_delivery sql s id token at (some lease)).0 cs in
      ((sql' : Sql) (t : String) (at' l : Stamp)
        → (claim_reminder_delivery sql' s' id t at' l).1 ≡ false)
      × ((sql' : Sql) (now : ℕ)
          → (sql' 0 ≡ true) × (sql' 1 ≡ true)
          → (finish_reminder_delivery sql' s' id token (some now)).1 ≡ ok tt)
claim_exclusive sql s id token at lease cs u e w n =
    let held =
      run-IsHeld id token lease _ cs w
        (claim_reminder_delivery-IsHeld id token at lease sql s u e) in
    (
      (λ sql' t at' l. claim-held id token lease sql' _ t at' l held),
      (λ sql' now r. finish-held id token lease sql' _ now held n r),
    )
