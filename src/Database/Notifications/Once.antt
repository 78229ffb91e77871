-- ===== src/Database/Notifications/Once.antt =====
-- A notification is claimed at most once, but for the releases and recoveries that hand it back.
use mathlib.Core.Path.{subst}
use omacalendar.Base.{
  ℕ, suc, ◌+◌, ◌≤◌, String, ◌≡◌, refl, inl, inr, Bool, true, false, not, ◌&&◌, ◌||◌, none, some,
  List, [], ◌∷◌, ◌++◌, arith, if◌then◌else◌, Bool-cases, Option-cases, update_where, count_where,
  str_eq, str_eq_iff, Stamp,
}
use omacalendar.Database.{claimed, NotificationDelivery, Store, Sql}
use omacalendar.Database.Notifications.{
  is_retry_pending, is_claimed_delivery, has_fingerprint, update_deliveries, meets_delivery,
  insert_delivery, can_reclaim, reclaim, upsert_claim, claim_notification_delivery, holds_delivery,
  deliver_notification, retry_notification, finish_notification_delivery,
  release_notification_delivery, recover_claimed_notification_deliveries, Invitation, baseline,
  insert_baseline, insert_baselines, persist_invitation_baselines, DeliveryCall, claims, finishes,
  releases, recovers, persists, deliver,
}

-- The rows with the fingerprint, and those among them that are claimed or delivered.
abbrev pub keyed : String → Store → ℕ
keyed f s = count_where (has_fingerprint f) s.notification_deliveries

abbrev is_settled : String → NotificationDelivery → Bool
is_settled f d = has_fingerprint f d && not (is_retry_pending d.state)

abbrev pub settled : String → Store → ℕ
settled f s = count_where (is_settled f) s.notification_deliveries

count-append :
    (test : NotificationDelivery → Bool) (ds : List NotificationDelivery) (d : NotificationDelivery)
    → count_where test (ds ++ d ∷ []) ≡ count_where test ds + (if test d then 1 else 0)
count-append test [] d = ground arith
count-append test (e ∷ ds) d = ground (arith, count-append test ds d)

keyed-settled :
    (f : String) (ds : List NotificationDelivery)
    → count_where (has_fingerprint f) ds
      ≡ count_where (is_settled f) ds + count_where (can_reclaim f) ds
keyed-settled f [] = omega arith
keyed-settled f (d ∷ ds) = ground (arith, keyed-settled f ds)

module _ (f : String) where
  -- An update that keeps the fingerprints, and that settles the rows it meets or leaves them.
  record IsKeeping (test : NotificationDelivery → Bool)
      (g : NotificationDelivery → NotificationDelivery) : Type 0 where
    key : (d : NotificationDelivery) → (g d).fingerprint ≡ d.fingerprint
    settles :
        (d : NotificationDelivery)
        → test d ≡ true
        → is_settled f d ≡ true
        → is_settled f (g d) ≡ true

  keyed-update_where :
      (test : NotificationDelivery → Bool) (g : NotificationDelivery → NotificationDelivery)
      (ds : List NotificationDelivery)
      → ((d : NotificationDelivery) → (g d).fingerprint ≡ d.fingerprint)
      → count_where (has_fingerprint f) (update_where test g ds)
        ≡ count_where (has_fingerprint f) ds
  keyed-update_where test g [] k = refl
  keyed-update_where test g (d ∷ ds) k = ground (arith, k d, keyed-update_where test g ds k)

  settled-update_where :
      (test : NotificationDelivery → Bool) (g : NotificationDelivery → NotificationDelivery)
      (ds : List NotificationDelivery)
      → IsKeeping test g
      → count_where (is_settled f) ds ≤ count_where (is_settled f) (update_where test g ds)
  settled-update_where test g [] k = omega arith
  settled-update_where test g (d ∷ ds) k =
      ground (arith, k.settles d, settled-update_where test g ds k)

  settled-reclaim :
      (new : NotificationDelivery) (ds : List NotificationDelivery)
      → count_where (is_settled f) (update_where (can_reclaim f) (reclaim new) ds)
        ≡ count_where (is_settled f) ds + count_where (can_reclaim f) ds
  settled-reclaim new [] = omega arith
  settled-reclaim new (d ∷ ds) = ground (arith, settled-reclaim new ds)

  reclaim-IsKeeping :
      (test : NotificationDelivery → Bool) (new : NotificationDelivery)
      → IsKeeping test (reclaim new)
  reclaim-IsKeeping test new = record { key = λ d. refl; settles = λ d t e. ground arith }

  deliver-IsKeeping :
      (test : NotificationDelivery → Bool) (at : Stamp) → IsKeeping test (deliver_notification at)
  deliver-IsKeeping test at = record { key = λ d. refl; settles = λ d t e. ground arith }

  -- How many claims of the fingerprint a call makes, and whether it may hand one back.
  abbrev pub claims_made : DeliveryCall → Bool → ℕ
  claims_made (claims g kind event_id revision at) true = if str_eq g f then 1 else 0
  claims_made _ _ = 0

  abbrev pub handed_back : DeliveryCall → ℕ
  handed_back (releases g) = 1
  handed_back (recovers at) = 1
  handed_back _ = 0

  -- The fingerprint stays a key, and what a call claims was not settled before unless it was handed back.
  abbrev pub IsAccounted : Store → Store → ℕ → ℕ → Type 0
  IsAccounted s s' made back = (keyed f s' ≤ 1) × (made + settled f s ≤ settled f s' + back)

  insert-IsAccounted :
      (new : NotificationDelivery) (s : Store)
      → is_retry_pending new.state ≡ false
      → keyed f s ≤ 1
      → (str_eq new.fingerprint f ≡ true → keyed f s ≡ 0)
      → IsAccounted s (insert_delivery new s) (if str_eq new.fingerprint f then 1 else 0) 0
  insert-IsAccounted new s n k fresh = (
    ground (arith, count-append (has_fingerprint f) s.notification_deliveries new),
    ground (arith, count-append (is_settled f) s.notification_deliveries new),
  )

  update-IsAccounted :
      (test : NotificationDelivery → Bool) (g : NotificationDelivery → NotificationDelivery)
      (s : Store)
      → keyed f s ≤ 1
      → IsKeeping test g
      → IsAccounted s (update_deliveries test g s) 0 0
  update-IsAccounted test g s k keep = (
    omega (arith, keyed-update_where test g s.notification_deliveries keep.key),
    omega (arith, settled-update_where test g s.notification_deliveries keep),
  )

  -- What is handed back is one row at most.
  reopen-IsAccounted :
      (test : NotificationDelivery → Bool) (s : Store)
      → keyed f s ≤ 1
      → IsAccounted s (update_deliveries test retry_notification s) 0 1
  reopen-IsAccounted test s k = (
    omega (arith, keyed-update_where test retry_notification s.notification_deliveries (λ d. refl)),
    omega (arith, keyed-settled f s.notification_deliveries),
  )

reclaim-IsAccounted :
    (f : String) (new : NotificationDelivery) (s : Store)
    → keyed f s ≤ 1
    → IsAccounted f s
        (update_deliveries (can_reclaim f) (reclaim new) s)
        (if meets_delivery (can_reclaim f) s && true then 1 else 0)
        0
reclaim-IsAccounted f new s k = (
  omega (
    arith,
    keyed-update_where f (can_reclaim f) (reclaim new) s.notification_deliveries (λ d. refl),
  ),
  ground (
    arith,
    settled-reclaim f new s.notification_deliveries,
    keyed-settled f s.notification_deliveries,
  ),
)

upsert-same :
    (new : NotificationDelivery) (s : Store)
    → is_retry_pending new.state ≡ false
    → keyed new.fingerprint s ≤ 1
    → IsAccounted new.fingerprint s
        (upsert_claim new s).0
        (if (upsert_claim new s).1 && str_eq new.fingerprint new.fingerprint then 1 else 0)
        0
upsert-same new s n k =
    let same = (str_eq_iff new.fingerprint new.fingerprint).1 refl in
    elim (Bool-cases (meets_delivery (has_fingerprint new.fingerprint) s)) [
      | inl m ↦ rw (m, same) (reclaim-IsAccounted new.fingerprint new s k)
      | inr m ↦
          rw (m, same)
            (rw same at (insert-IsAccounted new.fingerprint new s n k (λ e. ground arith)))
    ]

upsert-other :
    (f : String) (new : NotificationDelivery) (s : Store)
    → str_eq new.fingerprint f ≡ false
    → is_retry_pending new.state ≡ false
    → keyed f s ≤ 1
    → IsAccounted f s (upsert_claim new s).0 0 0
upsert-other f new s e n k =
    elim (Bool-cases (meets_delivery (has_fingerprint new.fingerprint) s)) [
      | inl m ↦ rw m (
          update-IsAccounted f (can_reclaim new.fingerprint) (reclaim new) s k
            (reclaim-IsKeeping f (can_reclaim new.fingerprint) new))
      | inr m ↦ rw m (rw e at (insert-IsAccounted f new s n k (λ h. cc)))
    ]

-- A claim that affects a row of the fingerprint settles it.
upsert-IsAccounted :
    (f : String) (new : NotificationDelivery) (s : Store)
    → is_retry_pending new.state ≡ false
    → keyed f s ≤ 1
    → IsAccounted f s
        (upsert_claim new s).0
        (if (upsert_claim new s).1 && str_eq new.fingerprint f then 1 else 0)
        0
upsert-IsAccounted f new s n k = elim (Bool-cases (str_eq new.fingerprint f)) [
  | inl e ↦
      subst
        (λ g.
          keyed g s ≤ 1
          → IsAccounted g s (upsert_claim new s).0
              (if (upsert_claim new s).1 && str_eq new.fingerprint g then 1 else 0) 0)
        ((str_eq_iff new.fingerprint f).0 e) (upsert-same new s n) k
  | inr e ↦ ground (arith, upsert-other f new s e n k)
]

claim-IsAccounted :
    (f : String) (sql : Sql) (s : Store) (g kind event_id : String) (revision : ℕ) (at : Stamp)
    → keyed f s ≤ 1
    → let r = claim_notification_delivery sql s g kind event_id revision at in
      IsAccounted f s r.0 (claims_made f (claims g kind event_id revision at) r.1) 0
unfolding claim_notification_delivery
claim-IsAccounted f sql s g kind event_id revision at k = ground (
  arith,
  upsert-IsAccounted f
      (record {
        fingerprint = g;
        kind = kind;
        event_id = event_id;
        event_revision = revision;
        state = claimed;
        claimed_at = at;
        delivered_at = none;
      })
      s refl k,
)

unmet-keyed :
    (f g : String) (s : Store)
    → meets_delivery (has_fingerprint g) s ≡ false
    → str_eq g f ≡ true
    → keyed f s ≡ 0
unmet-keyed f g s m e = subst (λ h. keyed h s ≡ 0) ((str_eq_iff g f).0 e) (ground arith)

insert_baseline-IsAccounted :
    (f : String) (now : ℕ) (i : Invitation) (s : Store)
    → keyed f s ≤ 1
    → IsAccounted f s (insert_baseline now i s).0 0 0
insert_baseline-IsAccounted f now i s k =
    elim (Bool-cases (meets_delivery (has_fingerprint i.fingerprint) s)) [
      | inl m ↦ rw m (k, omega arith)
      | inr m ↦ rw m (
          ground (
            arith,
            insert-IsAccounted f (baseline now i) s refl k (unmet-keyed f i.fingerprint s m),
          ))
    ]

insert_baselines-IsAccounted :
    (f : String) (sql : Sql) (k now : ℕ) (is : List Invitation) (s : Store) (changed : Bool)
    → keyed f s ≤ 1
    → (s' : Store) (changed' : Bool) → insert_baselines sql k now is s changed ≡ some (s', changed')
    → IsAccounted f s s' 0 0
unfolding insert_baselines
insert_baselines-IsAccounted f sql k now [] s changed h s' c' e = ground arith
insert_baselines-IsAccounted f sql k now (i ∷ is) s changed h s' c' e =
    let first = insert_baseline-IsAccounted f now i s h in
    let later =
      insert_baselines-IsAccounted f sql (suc k) now is (insert_baseline now i s).0
        (changed || (insert_baseline now i s).1) first.0 s' c' (ground arith) in
    (later.0, omega (arith, first.1, later.1))

persist-IsAccounted :
    (f : String) (sql : Sql) (s : Store) (now : ℕ) (is : List Invitation)
    → keyed f s ≤ 1
    → IsAccounted f s (persist_invitation_baselines sql s now is).0 0 0
unfolding persist_invitation_baselines
persist-IsAccounted f sql s now [] h = (h, omega arith)
persist-IsAccounted f sql s now (i ∷ is) h =
    elim (Option-cases (insert_baselines sql 1 now (i ∷ is) s false)) [
      | inl e ↦ ground arith
      | inr ((s', c), e) ↦
          ground (arith, insert_baselines-IsAccounted f sql 1 now (i ∷ is) s false h s' c e)
    ]

deliver-IsAccounted :
    (f : String) (sql : Sql) (s : Store) (c : DeliveryCall)
    → keyed f s ≤ 1
    → IsAccounted f s (deliver sql s c).0 (claims_made f c (deliver sql s c).1) (handed_back f c)
unfolding deliver finish_notification_delivery release_notification_delivery
    recover_claimed_notification_deliveries
deliver-IsAccounted f sql s (claims g kind event_id revision at) k =
    claim-IsAccounted f sql s g kind event_id revision at k
deliver-IsAccounted f sql s (finishes g at) k = ground (
  arith,
  update-IsAccounted f (holds_delivery g) (deliver_notification at) s k
      (deliver-IsKeeping f (holds_delivery g) at),
)
deliver-IsAccounted f sql s (releases g) k =
    ground (arith, reopen-IsAccounted f (holds_delivery g) s k)
deliver-IsAccounted f sql s (recovers none) k = (k, omega arith)
deliver-IsAccounted f sql s (recovers (some at)) k =
    ground (arith, reopen-IsAccounted f (λ d. is_claimed_delivery d.state) s k)
deliver-IsAccounted f sql s (persists now is) k = persist-IsAccounted f sql s now is k

-- Over a run: the claims of a fingerprint that report success, and the calls that may hand it back.
abbrev pub claims_of : String → Store → List (Sql × DeliveryCall) → ℕ
claims_of f s [] = 0
claims_of f s ((sql, c) ∷ cs) =
    claims_made f c (deliver sql s c).1 + claims_of f (deliver sql s c).0 cs

abbrev pub handed_back_of : String → List (Sql × DeliveryCall) → ℕ
handed_back_of f [] = 0
handed_back_of f ((sql, c) ∷ cs) = handed_back f c + handed_back_of f cs

-- On a table where the fingerprint is a key, over any run of calls, whichever statements run: the claims of
-- the fingerprint that report success, together with the row that is claimed or delivered at the
-- start, are at most one more than the releases and recoveries. Without those a notification is claimed
-- once, and not at all if it was claimed or delivered at the start.
pub claims_of-le :
    (f : String) (s : Store) (cs : List (Sql × DeliveryCall))
    → keyed f s ≤ 1
    → claims_of f s cs + settled f s ≤ 1 + handed_back_of f cs
claims_of-le f s [] k = omega (arith, keyed-settled f s.notification_deliveries)
claims_of-le f s ((sql, c) ∷ cs) k =
    let (k', b) = deliver-IsAccounted f sql s c k in
    omega (arith, b, claims_of-le f (deliver sql s c).0 cs k')
