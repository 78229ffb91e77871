-- ===== src/Sync/Retry/Delay.antt =====
-- The delays of `RetryPolicy::delayForAttempt`: the doubling in closed form, and the jitter's window.
use omacalendar.Base.Int.{ℤ, pos_part}
use mathlib.Core.Path.{subst}
use native.Mathlib.Nat.{
  pow-suc, mul_assoc, mul_comm, mod-lt, one-le-pow, le-mul_of_pos_right, mul-le-mul_left,
  mul-le-mul_right,
}
use omacalendar.Base.{
  ℕ, zero, suc, ◌+◌, ◌-◌, ◌*◌, ◌/◌, ◌%◌, ◌^◌, ◌≤◌, ◌<◌, min, max, ◌≡◌, refl, sym, inl, inr, ◌||◌,
  arith, ◌==◌, Bool-cases,
}
use omacalendar.Sync.Retry.{
  RetryOptions, RetryPolicy, largest_safe_delay, clamped_delay_count, retry_policy, double_delay,
  normalized_attempt, unjittered_delay, jitter_span, clamp_bits, jitter_random, add_jitter,
  delay_for_attempt,
}

le-mul-pow : (m r : ℕ) → m ≤ m * 2 ^ r
le-mul-pow m r = le-mul_of_pos_right m (one-le-pow r 2 (omega arith))

doubled : (d r : ℕ) → d * 2 ^ suc r ≡ d * 2 * 2 ^ r
doubled d r = rw (pow-suc, mul_comm (2 ^ r) 2) (sym (mul_assoc d 2 (2 ^ r)))

-- The saturating loop computes the doubled delay cut at the maximum.
pub double_delay-eq-min :
    (rounds maximum delay : ℕ)
    → delay ≤ maximum
    → double_delay rounds maximum delay ≡ min (delay * 2 ^ rounds) maximum
unfolding double_delay
double_delay-eq-min zero m d h = omega arith
double_delay-eq-min (suc r) m d h = ground (
  arith,
  doubled d r,
  le-mul-pow m r,
  le-mul-pow d (suc r),
  le-mul-pow (d * 2) r,
  double_delay-eq-min r m m (omega arith),
  double_delay-eq-min r m (d * 2),
)

-- What the constructor of a policy establishes.
pub record IsValid (p : RetryPolicy) : Type 0 where
  pub attempts : 1 ≤ p.maximum_attempts
  pub ordered : p.initial_delay ≤ p.maximum_delay
  pub safe : p.maximum_delay ≤ largest_safe_delay
  pub retry_after_safe : p.maximum_retry_after ≤ largest_safe_delay
  pub permille : p.jitter_permille ≤ 1000

-- The constructor normalises any options, negative ones included, to a valid policy.
pub retry_policy-IsValid : (o : RetryOptions) → IsValid (retry_policy o)
unfolding retry_policy clamped_delay_count
retry_policy-IsValid o = record {
  attempts = omega arith;
  ordered = omega arith;
  safe = omega arith;
  retry_after_safe = omega arith;
  permille = omega arith;
}

-- The unjittered delay in closed form: the initial delay doubled at each attempt, for 63 rounds at
-- most, and cut at the maximum.
pub unjittered_delay-eq-min :
    (p : RetryPolicy) (attempt : ℕ)
    → IsValid p
    → unjittered_delay p attempt ≡ min (p.initial_delay * 2 ^ min (attempt - 1) 63) p.maximum_delay
unfolding unjittered_delay
unjittered_delay-eq-min p attempt v =
    omega
      (arith, double_delay-eq-min (min (attempt - 1) 63) p.maximum_delay p.initial_delay v.ordered)

-- Around a delay `base` within the maximum `m`: at most the span away, and within the maximum.
abbrev pub Within : ℕ → ℕ → ℕ → ℕ → Type 0
Within base span m delay = (base ≤ delay + span) × (delay ≤ base + span) × (delay ≤ m)

-- The largest delay, in milliseconds, whose product with 1000 is below 2 ^ 63.
abbrev pub largest_jittered_delay : ℕ
largest_jittered_delay = 9223372036854775

-- Below it the span is the exact one.
jitter_span-exact :
    (p : RetryPolicy) (delay : ℕ)
    → delay ≤ largest_jittered_delay
    → p.jitter_permille ≤ 1000
    → (jitter_span p delay ≡ delay * p.jitter_permille / 1000)
      × (delay * p.jitter_permille / 1000 ≤ delay)
jitter_span-exact p delay h j = let le = mul-le-mul_left delay j in ground (arith, le)

-- A residue below the width moves the delay by at most the span.
shifted-Within :
    (base span m width r : ℕ)
    → width ≡ (span * 2 + 1) % 2 ^ 64
    → span ≤ base
    → base ≤ m
    → m ≤ largest_jittered_delay
    → r < width
    → Within base span m (clamp_bits ((base + (r + (2 ^ 64 - span)) % 2 ^ 64) % 2 ^ 64) m)
shifted-Within base span m width r w s b h l = ground arith

width-pos : (span : ℕ) → 0 < (span * 2 + 1) % 2 ^ 64
width-pos span = omega arith

add_jitter-Within :
    (p : RetryPolicy) (attempt key base : ℕ)
    → base ≤ p.maximum_delay
    → p.maximum_delay ≤ largest_jittered_delay
    → p.jitter_permille ≤ 1000
    → Within base (base * p.jitter_permille / 1000) p.maximum_delay (add_jitter p attempt key base)
unfolding add_jitter
add_jitter-Within p attempt key base b h j =
    let span = base * p.jitter_permille / 1000 in
    let (e, le) = jitter_span-exact p base (omega (arith, b, h)) j in
    let width = (span * 2 + 1) % 2 ^ 64 in
    let r = jitter_random p attempt key % width in
    let moved =
      shifted-Within base span p.maximum_delay width r refl le b h
        (mod-lt (jitter_random p attempt key) {m = width} (width-pos span)) in
    elim (Bool-cases ((base == 0) || (p.jitter_permille == 0))) [
      | inl z ↦ rw z (omega (arith, b))
      | inr z ↦
          rw (z, e)
            (elim (Bool-cases (span == 0)) [ inl y ↦ rw y (omega (arith, b)) | inr y ↦ rw y moved ])
    ]

unjittered-le : (p : RetryPolicy) (attempt : ℕ) → unjittered_delay p attempt ≤ p.maximum_delay
unfolding unjittered_delay
unjittered-le p a = omega arith

clamp_bits-le : (bits m : ℕ) → clamp_bits bits m ≤ m
clamp_bits-le bits m = ground arith

-- Whatever overflows, the delay stays within the maximum.
pub delay_for_attempt-le :
    (p : RetryPolicy) (completed_attempts : ℤ) (key : ℕ)
    → delay_for_attempt p completed_attempts key ≤ p.maximum_delay
unfolding delay_for_attempt add_jitter
delay_for_attempt-le p n key =
    let a = normalized_attempt n in
    let base = unjittered_delay p a in
    elim (Bool-cases ((base == 0) || (p.jitter_permille == 0))) [
      | inl z ↦ rw z (unjittered-le p a)
      | inr z ↦ rw z (elim (Bool-cases (jitter_span p base == 0)) [
        | inl y ↦ rw y (unjittered-le p a)
        | inr y ↦ rw y (clamp_bits-le _ p.maximum_delay)
      ])
    ]

-- For every attempts count, negative and corrupt ones included, and every jitter key: the delay of a
-- valid policy whose maximum is at most 2 ^ 63 / 1000 milliseconds is the initial delay, doubled for
-- each completed attempt after the first (63 times at most) and cut at the maximum, give or take
-- `jitter_permille` thousandths; and it never passes the maximum.
pub delay_for_attempt-Within :
    (p : RetryPolicy) (completed_attempts : ℤ) (key : ℕ)
    → IsValid p
    → p.maximum_delay ≤ largest_jittered_delay
    → let base =
        min
          (p.initial_delay * 2 ^ min (max 1 (pos_part completed_attempts) - 1) 63)
          p.maximum_delay in
      Within base
        (base * p.jitter_permille / 1000)
        p.maximum_delay
        (delay_for_attempt p completed_attempts key)
unfolding delay_for_attempt normalized_attempt
delay_for_attempt-Within p n key v h =
    let a = normalized_attempt n in
    subst (λ s. Within s (s * p.jitter_permille / 1000) p.maximum_delay (delay_for_attempt p n key))
      (unjittered_delay-eq-min p a v)
      (add_jitter-Within p a key (unjittered_delay p a) (unjittered-le p a) h v.permille)

-- With a maximum delay of at most 2 ^ 63 / 1000 milliseconds the product and the sum that the jitter
-- needs stay below 2 ^ 63, so the signed 64-bit arithmetic of the source does not overflow there.
pub jitter_product_fits :
    (p : RetryPolicy) (attempt : ℕ)
    → IsValid p
    → p.maximum_delay ≤ 9223372036854775
    → (unjittered_delay p attempt * p.jitter_permille < 2 ^ 63)
      × (jitter_span p (unjittered_delay p attempt) * 2 + 1 < 2 ^ 63)
jitter_product_fits p a v h =
    let exact =
      jitter_span-exact p (unjittered_delay p a) (omega (arith, h, unjittered-le p a)) v.permille in
    omega (
      arith,
      exact.0,
      exact.1,
      unjittered-le p a,
      mul-le-mul_left (unjittered_delay p a) v.permille,
      mul-le-mul_right 1000 (unjittered-le p a),
    )
