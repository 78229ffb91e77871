-- ===== src/Sync/Retry.antt =====
-- The retry policy of src/sync/retrypolicy.h and retrypolicy.cpp, and the provider errors of
-- src/sync/provider.h that it reads. Milliseconds are numbers; an `int` or a count of milliseconds
-- that a caller may give as negative is in ℤ. Of an error only the fields that the policy reads
-- are kept.
pub mod Delay
pub mod Decision
mod Tests
use Prim.Native.Nat.{bit_xor}
use omacalendar.Base.{
  ℕ, zero, suc, ◌+◌, ◌-◌, ◌*◌, ◌/◌, ◌%◌, ◌^◌, min, max, Bool, true, false, not, ◌&&◌, ◌||◌, ltb,
  leb, ◌==◌, if◌then◌else◌,
}
use omacalendar.Base.Int.{ℤ, pos, negsuc, pos_part}

-- `no_error` is the source's `None`.
pub data ProviderErrorKind : Type 0 where
  no_error cancelled network timeout authentication permission conflict : ProviderErrorKind
  rate_limited not_found invalid_request sync_token_expired unsupported : ProviderErrorKind
  service_unavailable unknown : ProviderErrorKind

pub record ProviderError : Type 0 where
  pub kind : ProviderErrorKind
  pub http_status : ℤ
  pub retry_after_ms : ℤ

pub data RetryAction : Type 0 where
  do_not_retry retry reauthenticate resolve_conflict reset_sync : RetryAction
  reconcile_before_retry was_cancelled attempts_exhausted : RetryAction

pub record RetryOptions : Type 0 where
  pub maximum_attempts : ℤ
  pub initial_delay : ℤ
  pub maximum_delay : ℤ
  pub maximum_retry_after : ℤ
  pub jitter_permille : ℤ
  pub random_seed : ℕ

pub record RetryInput : Type 0 where
  pub error : ProviderError
  pub completed_attempts : ℤ
  pub operation_is_idempotent : Bool
  pub request_may_have_reached_server : Bool
  pub jitter_key : ℕ

pub record RetryDecision : Type 0 where
  pub action : RetryAction
  pub delay : ℕ

-- The options as the constructor leaves them.
pub record RetryPolicy : Type 0 where
  pub maximum_attempts : ℕ
  pub initial_delay : ℕ
  pub maximum_delay : ℕ
  pub maximum_retry_after : ℕ
  pub jitter_permille : ℕ
  pub random_seed : ℕ

abbrev pub largest_safe_delay : ℕ
largest_safe_delay = 9223372036854775807 / 4

-- `std::clamp(delay, 0, kLargestSafeDelay)`.
pub clamped_delay_count : ℤ → ℕ
clamped_delay_count delay = min (pos_part delay) largest_safe_delay

unfoldable pub retry_policy : RetryOptions → RetryPolicy
unfolding clamped_delay_count
retry_policy o = record {
  maximum_attempts = max 1 (pos_part o.maximum_attempts);
  initial_delay = min (clamped_delay_count o.initial_delay) (clamped_delay_count o.maximum_delay);
  maximum_delay = clamped_delay_count o.maximum_delay;
  maximum_retry_after = clamped_delay_count o.maximum_retry_after;
  jitter_permille = min (pos_part o.jitter_permille) 1000;
  random_seed = o.random_seed;
}

-- Every product and sum is taken modulo 2 ^ 64.
pub mix64 : ℕ → ℕ
mix64 value =
    let a = (value + 0x9e3779b97f4a7c15) % 2 ^ 64 in
    let b = (bit_xor a (a / 2 ^ 30) * 0xbf58476d1ce4e5b9) % 2 ^ 64 in
    let c = (bit_xor b (b / 2 ^ 27) * 0x94d049bb133111eb) % 2 ^ 64 in bit_xor c (c / 2 ^ 31)

-- A status is compared with positive numbers only, so its positive part decides.
pub is_retryable_http_status : ℤ → Bool
is_retryable_http_status status =
    let s = pos_part status in (s == 408) || (s == 425) || (s == 429) || (leb 500 s && leb s 599)

pub kind_from_http_status : ℤ → ProviderErrorKind
kind_from_http_status status =
    let s = pos_part status in
    if (s == 400)
      || (s == 405)
      || (s == 406)
      || (s == 411)
      || (s == 413)
      || (s == 414)
      || (s == 415)
      || (s == 422)
    then invalid_request
    else if s == 401
    then authentication
    else if s == 403
    then permission
    else if (s == 404) || (s == 410)
    then not_found
    else if (s == 409) || (s == 412)
    then conflict
    else if s == 408
    then timeout
    else if (s == 425) || (s == 429)
    then rate_limited
    else if leb 500 s && leb s 599
    then service_unavailable
    else unknown

-- The test of the first `if` of `classify`.
abbrev pub is_unspecific : ProviderErrorKind → Bool
is_unspecific no_error = true
is_unspecific unknown = true
is_unspecific _ = false

-- The kind that `classify` switches on.
pub effective_kind : ProviderError → ProviderErrorKind
unfolding kind_from_http_status
effective_kind e =
    if is_unspecific e.kind && leb 400 (pos_part e.http_status)
    then kind_from_http_status e.http_status
    else e.kind

-- What a transient failure leads to.
pub replay : RetryInput → RetryAction
replay i =
    if i.request_may_have_reached_server && not i.operation_is_idempotent
    then reconcile_before_retry
    else retry

-- The `switch` of `classify`.
pub classify_kind : RetryInput → ProviderErrorKind → RetryAction
unfolding replay is_retryable_http_status
classify_kind i no_error = do_not_retry
classify_kind i cancelled = was_cancelled
classify_kind i authentication = reauthenticate
classify_kind i conflict = resolve_conflict
classify_kind i sync_token_expired = reset_sync
classify_kind i permission = do_not_retry
classify_kind i not_found = do_not_retry
classify_kind i invalid_request = do_not_retry
classify_kind i unsupported = do_not_retry
classify_kind i network = replay i
classify_kind i timeout = replay i
classify_kind i rate_limited = replay i
classify_kind i service_unavailable = replay i
classify_kind i unknown =
    if is_retryable_http_status i.error.http_status then replay i else do_not_retry

unfoldable pub classify : RetryInput → RetryAction
unfolding classify_kind effective_kind
classify i = classify_kind i (effective_kind i.error)

-- The loop of `delayForAttempt`, by the rounds left.
pub double_delay : ℕ → ℕ → ℕ → ℕ
double_delay zero maximum delay = delay
double_delay (suc rounds) maximum delay =
    let rest =
      double_delay rounds maximum (if ltb (maximum / 2) delay then maximum else delay * 2) in
    if ltb delay maximum then rest else delay

-- `std::max(1, completedAttempts)`.
pub normalized_attempt : ℤ → ℕ
normalized_attempt completed_attempts = max 1 (pos_part completed_attempts)

-- The delay before the jitter.
pub unjittered_delay : RetryPolicy → ℕ → ℕ
unjittered_delay p attempt =
    min (double_delay (min (attempt - 1) 63) p.maximum_delay p.initial_delay) p.maximum_delay

-- A `qint64` of the jitter is its 64 bits, negative from 2 ^ 63 on. The product of the span may pass
-- 2 ^ 63 (C++ leaves that undefined) and wraps around here. A division rounds towards zero.
abbrev pub divided : ℕ → ℕ
divided bits = if ltb bits (2 ^ 63) then bits / 1000 else (2 ^ 64 - (2 ^ 64 - bits) / 1000) % 2 ^ 64

abbrev pub jitter_span : RetryPolicy → ℕ → ℕ
jitter_span p delay = divided (delay * p.jitter_permille % 2 ^ 64)

-- `std::clamp(value, 0, maximum)`.
abbrev pub clamp_bits : ℕ → ℕ → ℕ
clamp_bits bits maximum = if ltb bits (2 ^ 63) then min bits maximum else 0

pub jitter_random : RetryPolicy → ℕ → ℕ → ℕ
unfolding mix64
jitter_random p attempt key =
    mix64 (bit_xor (bit_xor p.random_seed key) (attempt * 0xd6e8feb86659fd93 % 2 ^ 64))

pub add_jitter : RetryPolicy → ℕ → ℕ → ℕ → ℕ
unfolding jitter_random
add_jitter p attempt key delay =
    let span = jitter_span p delay in
    if (delay == 0) || (p.jitter_permille == 0)
    then delay
    else if span == 0
    then delay
    else let width = (span * 2 + 1) % 2 ^ 64 in
      let offset = (jitter_random p attempt key % width + (2 ^ 64 - span)) % 2 ^ 64 in
      clamp_bits ((delay + offset) % 2 ^ 64) p.maximum_delay

unfoldable pub delay_for_attempt : RetryPolicy → ℤ → ℕ → ℕ
delay_for_attempt p completed_attempts key =
    let attempt = normalized_attempt completed_attempts in
    add_jitter p attempt key (unjittered_delay p attempt)

-- The end of `evaluate`: a `Retry-After` hint, if there is one, raises the delay.
pub honour_retry_after : RetryPolicy → ℤ → ℕ → ℕ
honour_retry_after p (pos hint) delay = max delay (min hint p.maximum_retry_after)
honour_retry_after p (negsuc n) delay = delay

pub evaluate_retry : RetryPolicy → RetryInput → RetryDecision
evaluate_retry p i =
    let attempt = normalized_attempt i.completed_attempts in
    if leb p.maximum_attempts attempt
    then record { action = attempts_exhausted; delay = 0 }
    else record {
      action = retry;
      delay =
          honour_retry_after p i.error.retry_after_ms
            (delay_for_attempt p (pos attempt) i.jitter_key);
    }

abbrev pub act_on : RetryPolicy → RetryInput → RetryAction → RetryDecision
act_on p i retry = evaluate_retry p i
act_on p i action = record { action = action; delay = 0 }

unfoldable pub evaluate : RetryPolicy → RetryInput → RetryDecision
evaluate p i = act_on p i (classify i)
