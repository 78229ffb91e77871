-- ===== src/Database/Notifications/Tests.antt =====
-- Tests of the notification deliveries, and their theorems at concrete inputs.
use omacalendar.Base.{◌+◌, ◌≤◌, ◌≡◌, refl, true, false, some, List, [], ◌∷◌, map, arith, ltb}
use omacalendar.Database.{Store, empty_store, Sql}
use omacalendar.Database.Reminders.{meets_job, lease_is_over, claims, finishes, releases, succeeded}
use omacalendar.Database.Notifications.{
  is_claimed_delivery, meets_delivery, claim_notification_delivery, finish_notification_delivery,
  release_notification_delivery, recover_claimed_notification_deliveries, Invitation,
  persist_invitation_baselines, DeliveryCall, claims, finishes, releases, deliver,
}
use omacalendar.Database.Notifications.Once.{settled, claims_of, handed_back_of, claims_of-le}
use omacalendar.Database.Notifications.Atomic.{recover_claimed_atomic}

abbrev runs : Sql
runs k = true

abbrev told_once : List (Sql × DeliveryCall)
told_once =
    (runs, claims "f" "invitation" "event" 1 (some 5))
    ∷ (runs, claims "f" "invitation" "event" 1 (some 6))
    ∷ (runs, releases "f")
    ∷ (runs, claims "f" "invitation" "event" 2 (some 7))
    ∷ (runs, finishes "f" (some 8))
    ∷ (runs, claims "f" "invitation" "event" 2 (some 9))
    ∷ []

told_once_claims : claims_of "f" empty_store told_once ≡ 2
unfolding deliver claim_notification_delivery release_notification_delivery
    finish_notification_delivery
told_once_claims = refl

abbrev invited : List Invitation
invited =
    record { fingerprint = "f"; event_id = "e"; local_revision = 1 }
    ∷ record { fingerprint = "f"; event_id = "e"; local_revision = 1 }
    ∷ []

-- The second insert is ignored, and a baseline is never claimed.
baseline_is_kept :
    let s = (persist_invitation_baselines runs empty_store 3 invited).0 in
    (map (λ d. d.kind) s.notification_deliveries ≡ "invitation_baseline" ∷ [])
    × ((claim_notification_delivery runs s "f" "invitation" "e" 2 (some 4)).1 ≡ false)
unfolding persist_invitation_baselines claim_notification_delivery
baseline_is_kept = (refl, refl)

claims_of-le_example :
    claims_of "f" empty_store told_once + settled "f" empty_store ≤ 1 + handed_back_of "f" told_once
claims_of-le_example = claims_of-le "f" empty_store told_once (omega arith)

abbrev one_claimed : Store
unfolding claim_notification_delivery
one_claimed = (claim_notification_delivery runs empty_store "f" "invitation" "e" 2 (some 4)).0

recover_claimed_atomic_example :
    let sql : Sql = λ k. ltb k 4 in
    let r = recover_claimed_notification_deliveries sql one_claimed (some 9) in
    (succeeded r.1 ≡ false → r.0 ≡ one_claimed)
    × (succeeded r.1 ≡ true
        → (meets_delivery (λ d. is_claimed_delivery d.state) r.0 ≡ false)
          × (meets_job (lease_is_over 9) r.0 ≡ false))
recover_claimed_atomic_example = recover_claimed_atomic (λ k. ltb k 4) one_claimed 9
