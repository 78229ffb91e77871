-- ===== src/Sync/Retry/Tests.antt =====
-- Tests of the retry policy, and its theorems at concrete inputs.
use omacalendar.Base.Int.{pos}
use omacalendar.Base.{◌+◌, ◌*◌, ◌^◌, ◌≤◌, ◌<◌, max, ◌≡◌, refl, ◌≢◌, ◌↔◌, true, [], ◌∷◌, map, arith}
use omacalendar.Sync.Retry.Delay.{
  retry_policy-IsValid, Within, delay_for_attempt-Within, jitter_product_fits,
}
use omacalendar.Sync.Retry.Decision.{
  IsTransientStatus, IsRepeatable, action-evaluate_iff, required_wait, delay-evaluate,
}
use omacalendar.Sync.Retry.{
  unknown, retry, RetryOptions, RetryInput, RetryPolicy, clamped_delay_count, retry_policy, mix64,
  classify, double_delay, normalized_attempt, unjittered_delay, jitter_span, add_jitter,
  delay_for_attempt, honour_retry_after, evaluate_retry, evaluate,
}

-- The defaults of `RetryOptions`.
abbrev default_options : RetryOptions
default_options = record {
  maximum_attempts = pos 6;
  initial_delay = pos 1000;
  maximum_delay = pos 300000;
  maximum_retry_after = pos 86400000;
  jitter_permille = pos 200;
  random_seed = 0x6f6d6163616c656e;
}

abbrev default_policy : RetryPolicy
unfolding retry_policy clamped_delay_count
default_policy = retry_policy default_options

abbrev throttled : RetryInput
throttled = record {
  error = record { kind = unknown; http_status = pos 429; retry_after_ms = pos 5000 };
  completed_attempts = pos 2;
  operation_is_idempotent = true;
  request_may_have_reached_server = true;
  jitter_key = 7;
}

-- 1000, 2000, 4000, ... up to the maximum.
unjittered_delays :
    map (unjittered_delay (retry_policy default_options)) (1 ∷ 2 ∷ 3 ∷ 9 ∷ 10 ∷ 100 ∷ [])
    ≡ 1000 ∷ 2000 ∷ 4000 ∷ 256000 ∷ 300000 ∷ 300000 ∷ []
unfolding retry_policy clamped_delay_count unjittered_delay double_delay
unjittered_delays = refl

-- The first output of SplitMix64 from the state 0.
mix64_of_zero : mix64 0 ≡ 0xe220a8397b1dcdaf
unfolding mix64
mix64_of_zero = refl

throttled_waits : (evaluate (retry_policy default_options) throttled).delay ≡ 5000
unfolding evaluate classify evaluate_retry delay_for_attempt honour_retry_after retry_policy
    clamped_delay_count unjittered_delay double_delay add_jitter normalized_attempt
throttled_waits = refl

-- A policy with a maximum delay past 2 ^ 63 / 1000 milliseconds, where the product of the jitter
-- passes 2 ^ 63.
jitter_product_overflow :
    unjittered_delay
        (retry_policy
          (record default_options { maximum_delay = pos (2 ^ 60); initial_delay = pos (2 ^ 60) }))
        1
      * 200
    ≡ 200 * 2 ^ 60
unfolding retry_policy clamped_delay_count unjittered_delay double_delay
jitter_product_overflow = refl

delay_for_attempt-Within_example :
    Within 2000 400 300000 (delay_for_attempt (retry_policy default_options) (pos 2) 7)
unfolding retry_policy clamped_delay_count
delay_for_attempt-Within_example =
    delay_for_attempt-Within (retry_policy default_options) (pos 2) 7
      (retry_policy-IsValid default_options) (omega arith)

action-evaluate_iff_example :
    ((evaluate (retry_policy default_options) throttled).action ≡ retry) ↔ (
      IsTransientStatus (pos 429)
      × IsRepeatable throttled
      × (2 < (retry_policy default_options).maximum_attempts))
action-evaluate_iff_example = action-evaluate_iff (retry_policy default_options) throttled

delay-evaluate_example :
    let p = retry_policy default_options in
    ((evaluate p throttled).delay ≤ max p.maximum_delay p.maximum_retry_after)
    × ((evaluate p throttled).action ≡ retry
        → required_wait p (pos 5000) ≤ (evaluate p throttled).delay)
    × ((evaluate p throttled).action ≢ retry → (evaluate p throttled).delay ≡ 0)
delay-evaluate_example =
    delay-evaluate (retry_policy default_options) throttled (retry_policy-IsValid default_options)

jitter_product_fits_example :
    let p = retry_policy default_options in
    (unjittered_delay p 3 * p.jitter_permille < 2 ^ 63)
    × (jitter_span p (unjittered_delay p 3) * 2 + 1 < 2 ^ 63)
unfolding retry_policy clamped_delay_count
jitter_product_fits_example =
    jitter_product_fits (retry_policy default_options) 3 (retry_policy-IsValid default_options)
      (omega arith)

-- The product overflows: 2 ^ 61 milliseconds times 200 is a multiple of 2 ^ 64, and no jitter is added.
-- With 201 thousandths the span is one thousandth of the delay.
wrapped_test :
    (jitter_span (record (retry_policy default_options) { jitter_permille = 200 }) (2 ^ 61) ≡ 0)
    × (jitter_span (record (retry_policy default_options) { jitter_permille = 201 }) (2 ^ 61)
        ≡ 2305843009213693)
wrapped_test = (refl, refl)
