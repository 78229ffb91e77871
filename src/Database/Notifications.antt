-- ===== src/Database/Notifications.antt =====
-- The notification deliveries of src/core/database.cpp: an invitation is told once for each
-- fingerprint. The fingerprint, a hash of the event, is part of the input.
pub mod Once
pub mod Atomic
mod Tests
use omacalendar.Base.{
  ℕ, suc, ◌+◌, String, Bool, true, false, not, ◌&&◌, ◌||◌, Option, none, some, List, [], ◌∷◌, ◌++◌,
  ltb, if◌then◌else◌, length, update_where, count_where, any, str_eq, is_empty, Stamp, is_valid,
}
use omacalendar.Database.{
  claimed, delivered, DeliveryState, retry_pending, NotificationDelivery, Store, sql_error,
  rejected, Result, ok, failed, Sql, bump_if_changed,
}
use omacalendar.Database.Reminders.{update_jobs, meets_job, rest_job, lease_is_over}

abbrev pub is_retry_pending : DeliveryState → Bool
is_retry_pending retry_pending = true
is_retry_pending _ = false

abbrev pub is_claimed_delivery : DeliveryState → Bool
is_claimed_delivery claimed = true
is_claimed_delivery _ = false

abbrev pub is_delivered : DeliveryState → Bool
is_delivered delivered = true
is_delivered _ = false

abbrev pub has_fingerprint : String → NotificationDelivery → Bool
has_fingerprint f d = str_eq d.fingerprint f

abbrev pub update_deliveries :
    (NotificationDelivery → Bool) → (NotificationDelivery → NotificationDelivery) → Store → Store
update_deliveries test f s = record s {
  notification_deliveries = update_where test f s.notification_deliveries;
}

abbrev pub meets_delivery : (NotificationDelivery → Bool) → Store → Bool
meets_delivery test s = ltb 0 (count_where test s.notification_deliveries)

abbrev pub insert_delivery : NotificationDelivery → Store → Store
insert_delivery d s = record s { notification_deliveries = s.notification_deliveries ++ d ∷ [] }

-- The WHERE of the upsert: only a row that waits for a retry is claimed again.
abbrev pub can_reclaim : String → NotificationDelivery → Bool
can_reclaim f d = has_fingerprint f d && is_retry_pending d.state

abbrev pub reclaim : NotificationDelivery → NotificationDelivery → NotificationDelivery
reclaim new d = record d {
  kind = new.kind;
  event_id = new.event_id;
  event_revision = new.event_revision;
  state = claimed;
  claimed_at = new.claimed_at;
  delivered_at = none;
}

-- INSERT ... ON CONFLICT(fingerprint) DO UPDATE ... WHERE state='retry_pending', and whether it
-- affected a row.
abbrev pub upsert_claim : NotificationDelivery → Store → Store × Bool
upsert_claim new s =
    if meets_delivery (has_fingerprint new.fingerprint) s
    then (
      update_deliveries (can_reclaim new.fingerprint) (reclaim new) s,
      meets_delivery (can_reclaim new.fingerprint) s,
    )
    else (insert_delivery new s, true)

unfoldable pub claim_notification_delivery :
    Sql → Store → String → String → String → ℕ → Stamp → Store × Bool × Result (Unit {0})
unfolding bump_if_changed
claim_notification_delivery sql s fingerprint kind event_id event_revision claimed_at =
    if is_empty fingerprint || is_empty kind || is_empty event_id || not (is_valid claimed_at)
    then (s, false, failed (rejected "A complete notification claim is required"))
    else if not (sql 0)
    then (s, false, failed (sql_error "claim notification delivery"))
    else let new : NotificationDelivery = record {
      fingerprint = fingerprint;
      kind = kind;
      event_id = event_id;
      event_revision = event_revision;
      state = claimed;
      claimed_at = claimed_at;
      delivered_at = none;
    } in
      let (s', r) = bump_if_changed (upsert_claim new s).1 (sql 1) tt (upsert_claim new s).0 in
      (s', (upsert_claim new s).1, r)

abbrev pub holds_delivery : String → NotificationDelivery → Bool
holds_delivery f d = has_fingerprint f d && is_claimed_delivery d.state

abbrev pub deliver_notification : Stamp → NotificationDelivery → NotificationDelivery
deliver_notification at d = record d { state = delivered; delivered_at = at }

abbrev pub retry_notification : NotificationDelivery → NotificationDelivery
retry_notification d = record d { state = retry_pending; delivered_at = none }

unfoldable pub finish_notification_delivery :
    Sql → Store → String → Stamp → Store × Result (Unit {0})
unfolding bump_if_changed
finish_notification_delivery sql s f delivered_at =
    if not (sql 0)
    then (s, failed (sql_error "finish notification delivery"))
    else bump_if_changed (meets_delivery (holds_delivery f) s) (sql 1) tt
        (update_deliveries (holds_delivery f) (deliver_notification delivered_at) s)

unfoldable pub release_notification_delivery : Sql → Store → String → Store × Result (Unit {0})
unfolding bump_if_changed
release_notification_delivery sql s f =
    if not (sql 0)
    then (s, failed (sql_error "release notification delivery"))
    else bump_if_changed (meets_delivery (holds_delivery f) s) (sql 1) tt
        (update_deliveries (holds_delivery f) retry_notification s)

-- The two updates of the recovery.
abbrev pub recover_jobs : ℕ → Store → Store
recover_jobs at s = update_jobs (lease_is_over at) rest_job s

abbrev pub recover_invitations : Store → Store
recover_invitations s = update_deliveries (λ d. is_claimed_delivery d.state) retry_notification s

abbrev pub recovery_meets : ℕ → Store → Bool
recovery_meets at s =
    meets_job (lease_is_over at) s || meets_delivery (λ d. is_claimed_delivery d.state) s

-- The statements stand in a savepoint: 0 opens it, 1 and 2 are the updates, 3 advances the
-- revision, 4 commits. `fail` goes back to the state at the savepoint.
unfoldable pub recover_claimed_notification_deliveries :
    Sql → Store → Stamp → Store × Result (Unit {0})
unfolding bump_if_changed
recover_claimed_notification_deliveries sql s none =
    (s, failed (rejected "A valid notification recovery time is required"))
recover_claimed_notification_deliveries sql s (some at) =
    if not (sql 0)
    then (s, failed (sql_error "start notification recovery"))
    else if not (sql 1)
    then (s, failed (sql_error "recover reminder claims"))
    else if not (sql 2)
    then (s, failed (sql_error "release abandoned notification claims"))
    else if recovery_meets at s && not (sql 3)
    then (s, failed (sql_error "advance change revision"))
    else if not (sql 4)
    then (s, failed (sql_error "commit notification recovery"))
    else bump_if_changed (recovery_meets at s) true tt (recover_invitations (recover_jobs at s))

unfoldable pub has_any_notification_delivery_for_event : Bool → Store → String → Bool
has_any_notification_delivery_for_event runs s event_id =
    runs && any (λ d. str_eq d.event_id event_id) s.notification_deliveries

unfoldable pub has_completed_notification_delivery_for_event : Bool → Store → String → Bool
has_completed_notification_delivery_for_event runs s event_id =
    runs && any (λ d. str_eq d.event_id event_id && is_delivered d.state) s.notification_deliveries

unfoldable pub is_notification_delivery_completed : Bool → Store → String → Bool
is_notification_delivery_completed runs s f =
    runs && any (λ d. has_fingerprint f d && is_delivered d.state) s.notification_deliveries

-- An invitation as `persistInvitationBaselines` reads it.
pub record Invitation : Type 0 where
  pub fingerprint : String
  pub event_id : String
  pub local_revision : ℕ

abbrev pub baseline : ℕ → Invitation → NotificationDelivery
baseline now i = record {
  fingerprint = i.fingerprint;
  kind = "invitation_baseline";
  event_id = i.event_id;
  event_revision = i.local_revision;
  state = delivered;
  claimed_at = some now;
  delivered_at = none;
}

-- INSERT OR IGNORE, and whether it affected a row.
abbrev pub insert_baseline : ℕ → Invitation → Store → Store × Bool
insert_baseline now i s =
    if meets_delivery (has_fingerprint i.fingerprint) s
    then (s, false)
    else (insert_delivery (baseline now i) s, true)

-- The loop: the k-th statement and those after it insert the invitations. `none` is the early
-- return of a statement that does not run.
pub insert_baselines : Sql → ℕ → ℕ → List Invitation → Store → Bool → Option (Store × Bool)
insert_baselines sql k now [] s changed = some (s, changed)
insert_baselines sql k now (i ∷ is) s changed =
    let rest =
      insert_baselines sql (suc k) now is (insert_baseline now i s).0
        (changed || (insert_baseline now i s).1) in
    if sql k then rest else none

-- Statement 0 opens the transaction, 1 to n insert, n + 1 commits and n + 2 advances the revision,
-- outside of the transaction.
unfoldable pub persist_invitation_baselines :
    Sql → Store → ℕ → List Invitation → Store × Result (Unit {0})
unfolding bump_if_changed insert_baselines
persist_invitation_baselines sql s now [] = (s, ok tt)
persist_invitation_baselines sql s now (i ∷ is) =
    if not (sql 0)
    then (s, failed (sql_error "transaction"))
    else elim (insert_baselines sql 1 now (i ∷ is) s false) [
      | none ↦ (s, failed (sql_error "persist invitation baseline"))
      | some (s', changed) ↦
          if sql (length (i ∷ is) + 1)
          then bump_if_changed changed (sql (length (i ∷ is) + 2)) tt s'
          else (s, failed (sql_error "commit"))
    ]

-- The operations that write `notification_deliveries`, as calls.
pub data DeliveryCall : Type 0 where
  claims : String → String → String → ℕ → Stamp → DeliveryCall
  finishes : String → Stamp → DeliveryCall
  releases : String → DeliveryCall
  recovers : Stamp → DeliveryCall
  persists : ℕ → List Invitation → DeliveryCall

-- The store after a call, and whether the call claimed a notification.
unfoldable pub deliver : Sql → Store → DeliveryCall → Store × Bool
deliver sql s (claims f kind event_id revision at) =
    let (s', c, r) = claim_notification_delivery sql s f kind event_id revision at in (s', c)
deliver sql s (finishes f at) = ((finish_notification_delivery sql s f at).0, false)
deliver sql s (releases f) = ((release_notification_delivery sql s f).0, false)
deliver sql s (recovers at) = ((recover_claimed_notification_deliveries sql s at).0, false)
deliver sql s (persists now is) = ((persist_invitation_baselines sql s now is).0, false)
