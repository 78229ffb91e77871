-- ===== src/Sync/Retry/Decision.antt =====
-- The decisions of `RetryPolicy::evaluate`: when a request is repeated, and how long it waits.
use omacalendar.Sync.Retry.Delay.{IsValid, delay_for_attempt-le}
use omacalendar.Base.Int.{ℤ, pos, pos_part}
use omacalendar.Base.{ℕ, ◌≤◌, ◌<◌, min, max, ◌≡◌, refl, ◌≢◌, ◌↔◌, ◌⊎◌, true, false, arith}
use omacalendar.Sync.Retry.{
  ProviderErrorKind, no_error, network, timeout, rate_limited, service_unavailable, unknown,
  RetryAction, retry, RetryInput, RetryPolicy, replay, classify, normalized_attempt,
  honour_retry_after, evaluate_retry, act_on, evaluate,
}

-- The HTTP statuses that a later request may not meet again.
abbrev pub IsTransientStatus : ℤ → Type 0
IsTransientStatus status =
    let s = pos_part status in (s ≡ 408) ⊎ (s ≡ 425) ⊎ (s ≡ 429) ⊎ ((500 ≤ s) × (s ≤ 599))

-- The failures that may pass: those of the four transient kinds, and those without a kind whose
-- status is a transient one.
abbrev pub IsTransient : ProviderErrorKind → ℤ → Type 0
IsTransient network status = Unit {0}
IsTransient timeout status = Unit {0}
IsTransient rate_limited status = Unit {0}
IsTransient service_unavailable status = Unit {0}
IsTransient no_error status = IsTransientStatus status
IsTransient unknown status = IsTransientStatus status
IsTransient _ status = ⊥

-- The request cannot be carried out twice by being sent again.
abbrev pub IsRepeatable : RetryInput → Type 0
IsRepeatable i = (i.operation_is_idempotent ≡ true) ⊎ (i.request_may_have_reached_server ≡ false)

replay_iff : (i : RetryInput) → (replay i ≡ retry) ↔ IsRepeatable i
unfolding replay
replay_iff i = ground arith

classify_kind_iff :
    (i : RetryInput) (k : ProviderErrorKind)
    → i.error.kind ≡ k
    → (classify i ≡ retry) ↔ (IsTransient k i.error.http_status × IsRepeatable i)
unfolding classify replay
classify_kind_iff i no_error e = (ground arith, ground arith)
classify_kind_iff i unknown e = (ground arith, ground arith)
classify_kind_iff i _ e = ground arith

-- The classification says "retry" exactly for a transient failure of a request that may be repeated.
pub classify_iff :
    (i : RetryInput)
    → (classify i ≡ retry) ↔ (IsTransient i.error.kind i.error.http_status × IsRepeatable i)
classify_iff i = classify_kind_iff i i.error.kind refl

action-evaluate_retry :
    (p : RetryPolicy) (i : RetryInput)
    → ((evaluate_retry p i).action ≡ retry)
      ↔ (max 1 (pos_part i.completed_attempts) < p.maximum_attempts)
unfolding evaluate_retry normalized_attempt
action-evaluate_retry p i = ground arith

act_on_iff :
    (p : RetryPolicy) (i : RetryInput) (a : RetryAction)
    → ((act_on p i a).action ≡ retry)
      ↔ ((a ≡ retry) × (max 1 (pos_part i.completed_attempts) < p.maximum_attempts))
act_on_iff p i retry = let h = action-evaluate_retry p i in ((λ e. (refl, h.0 e)), (λ q. h.1 q.1))
act_on_iff p i _ = ground arith

-- `evaluate` asks for a retry exactly when the failure is transient, the request may be repeated (it is
-- idempotent or cannot have reached the server), and attempts remain.
pub action-evaluate_iff :
    (p : RetryPolicy) (i : RetryInput)
    → ((evaluate p i).action ≡ retry) ↔ (
        IsTransient i.error.kind i.error.http_status
        × IsRepeatable i
        × (max 1 (pos_part i.completed_attempts) < p.maximum_attempts))
unfolding evaluate
action-evaluate_iff p i = (
  (λ e.
      let (h, more) = (act_on_iff p i (classify i)).0 e in
      let (t, r) = (classify_iff i).0 h in (t, r, more)),
  (λ q. (act_on_iff p i (classify i)).1 ((classify_iff i).1 (q.0, q.1), q.2)),
)

-- What a `Retry-After` value asks for, within the policy's limit.
abbrev pub required_wait : RetryPolicy → ℤ → ℕ
required_wait p retry_after_ms = min (pos_part retry_after_ms) p.maximum_retry_after

-- The delay of any decision of a valid policy is at most the larger of its two limits; a retry waits
-- at least as long as the provider's `Retry-After`, cut at the limit for it, and every decision
-- other than a retry has no delay.
pub delay-evaluate :
    (p : RetryPolicy) (i : RetryInput)
    → IsValid p
    → ((evaluate p i).delay ≤ max p.maximum_delay p.maximum_retry_after)
      × ((evaluate p i).action ≡ retry
          → required_wait p i.error.retry_after_ms ≤ (evaluate p i).delay)
      × ((evaluate p i).action ≢ retry → (evaluate p i).delay ≡ 0)
unfolding evaluate evaluate_retry honour_retry_after
delay-evaluate p i v =
    ground
      (arith, delay_for_attempt-le p (pos (normalized_attempt i.completed_attempts)) i.jitter_key)
