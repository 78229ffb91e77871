-- ===== src/FreeBusy/Merge.antt =====
-- The merged intervals are in order and apart, and hold the same instants as the given ones.
use omacalendar.Base.{
  IsOrdered, Any-sort_by, Any-sort_by_inv, sort_by-IsOrdered, sort_by, ℕ, ◌≡◌, ◌↔◌, ◌⊎◌, inl, inr,
  true, false, some, List, [], ◌∷◌, arith, Bool-cases, All, Any, All-map, is_valid, stamp_le,
  stamp_lt,
}
use omacalendar.FreeBusy.{
  BusyInterval, starts_before, is_skipped, extend, merge_after, merge_sorted, merge_busy_intervals,
}

-- The interval holds the instant.
abbrev pub Holds : ℕ → BusyInterval → Type 0
Holds t i =
    (is_valid i.start ≡ true)
    × (stamp_le i.start (some t) ≡ true)
    × (stamp_lt (some t) i.end ≡ true)

abbrev IsFrom : BusyInterval → List BusyInterval → Type 0
IsFrom last is = All (λ i. starts_before i last ≡ false) is

skipped-Holds : (t : ℕ) (i : BusyInterval) → is_skipped i ≡ true → Holds t i → ⊥
skipped-Holds t i s h = ground (arith, s, h)

extend-Holds :
    (t : ℕ) (last i : BusyInterval)
    → is_skipped last ≡ false
    → is_skipped i ≡ false
    → starts_before i last ≡ false
    → stamp_le i.start last.end ≡ true
    → Holds t (extend last i)
    → Holds t last ⊎ Holds t i
extend-Holds t last i p q o m h = ground arith

extend-Holds_inv :
    (t : ℕ) (last i : BusyInterval)
    → is_skipped last ≡ false
    → is_skipped i ≡ false
    → starts_before i last ≡ false
    → Holds t last ⊎ Holds t i
    → Holds t (extend last i)
extend-Holds_inv t last i p q o (inl h) = ground (arith, h)
extend-Holds_inv t last i p q o (inr h) = ground (arith, h)

extend_proper :
    (last i : BusyInterval)
    → is_skipped last ≡ false
    → is_skipped i ≡ false
    → is_skipped (extend last i) ≡ false
extend_proper last i p q = ground arith

-- In order, proper, and each ends before the next one starts.
abbrev pub AreApart : List BusyInterval → Type 0
AreApart [] = Unit
AreApart (i ∷ is) =
    (is_skipped i ≡ false) × All (λ j. stamp_lt i.end j.start ≡ true) is × AreApart is

module _ (t : ℕ) where
  merge_after-Any :
      (last : BusyInterval) (is : List BusyInterval)
      → is_skipped last ≡ false
      → IsFrom last is
      → IsOrdered starts_before is
      → Any (Holds t) (merge_after last is)
      → Any (Holds t) (last ∷ is)
  unfolding merge_after
  merge_after-Any last [] p f o a = a
  merge_after-Any last (i ∷ is) p f o a = elim (Bool-cases (is_skipped i)) [
    | inl s ↦ elim (merge_after-Any last is p f.1 o.1 (rw s at a)) [
      | inl h ↦ inl h
      | inr h ↦ inr (inr h)
    ]
    | inr s ↦ elim (Bool-cases (stamp_le i.start last.end)) [
      | inl m ↦
          elim (merge_after-Any (extend last i) is (extend_proper last i p s) f.1 o.1
            (rw (s, m) at a)) [
              | inl h ↦ elim (extend-Holds t last i p s f.0 m h) [
                | inl q ↦ inl q
                | inr q ↦ inr (inl q)
              ]
              | inr h ↦ inr (inr h)
            ]
      | inr m ↦
          let b : Holds t last ⊎ Any (Holds t) (merge_after i is) = rw (s, m) at a in
          elim b [ inl h ↦ inl h | inr h ↦ inr (merge_after-Any i is s o.0 o.1 h) ]
    ]
  ]

  merge_after-Any_inv :
      (last : BusyInterval) (is : List BusyInterval)
      → is_skipped last ≡ false
      → IsFrom last is
      → IsOrdered starts_before is
      → Any (Holds t) (last ∷ is)
      → Any (Holds t) (merge_after last is)
  unfolding merge_after
  merge_after-Any_inv last [] p f o a = a
  merge_after-Any_inv last (i ∷ is) p f o a = elim (Bool-cases (is_skipped i)) [
    | inl s ↦ rw s (
        merge_after-Any_inv last is p f.1 o.1 (elim a [
          | inl h ↦ inl h
          | inr b ↦ elim b [ inl h ↦ absurd (skipped-Holds t i s h) | inr h ↦ inr h ]
        ]))
    | inr s ↦ elim (Bool-cases (stamp_le i.start last.end)) [
      | inl m ↦
          rw (s, m)
            (merge_after-Any_inv (extend last i) is (extend_proper last i p s) f.1 o.1 (elim a [
              | inl h ↦ inl (extend-Holds_inv t last i p s f.0 (inl h))
              | inr b ↦ elim b [
                | inl h ↦ inl (extend-Holds_inv t last i p s f.0 (inr h))
                | inr h ↦ inr h
              ]
            ]))
      | inr m ↦
          rw (s, m) (elim a [ inl h ↦ inl h | inr h ↦ inr (merge_after-Any_inv i is s o.0 o.1 h) ])
    ]
  ]

starts_trans :
    (x y z : BusyInterval)
    → starts_before y x ≡ false
    → starts_before z y ≡ false
    → starts_before z x ≡ false
starts_trans x y z n m = ground (arith, n, m)

starts_asym : (x y : BusyInterval) → starts_before x y ≡ true → starts_before y x ≡ false
starts_asym x y e = ground (arith, e)

merge_after-IsFrom :
    (first last : BusyInterval) (is : List BusyInterval)
    → starts_before last first ≡ false
    → IsFrom first is
    → IsFrom first (merge_after last is)
unfolding merge_after
merge_after-IsFrom first last [] n f = (n, tt)
merge_after-IsFrom first last (i ∷ is) n f = elim (Bool-cases (is_skipped i)) [
  | inl s ↦ rw s (merge_after-IsFrom first last is n f.1)
  | inr s ↦ elim (Bool-cases (stamp_le i.start last.end)) [
    | inl m ↦ rw (s, m) (merge_after-IsFrom first (extend last i) is n f.1)
    | inr m ↦ rw (s, m) (n, merge_after-IsFrom first i is f.0 f.1)
  ]
]

merge_after-AreApart :
    (last : BusyInterval) (is : List BusyInterval)
    → is_skipped last ≡ false
    → IsOrdered starts_before is
    → AreApart (merge_after last is)
unfolding merge_after
merge_after-AreApart last [] p o = (p, tt, tt)
merge_after-AreApart last (i ∷ is) p o = elim (Bool-cases (is_skipped i)) [
  | inl s ↦ rw s (merge_after-AreApart last is p o.1)
  | inr s ↦ elim (Bool-cases (stamp_le i.start last.end)) [
    | inl m ↦ rw (s, m) (merge_after-AreApart (extend last i) is (extend_proper last i p s) o.1)
    | inr m ↦
        rw (s, m)
          (
            p,
            All-map (λ j. starts_before j i ≡ false) (λ j. stamp_lt last.end j.start ≡ true)
                (λ j n. ground (arith, n, m)) (merge_after i is)
                (merge_after-IsFrom i i is (ground arith) o.0),
            merge_after-AreApart i is s o.1,
          )
  ]
]

merge_sorted-Any :
    (t : ℕ) (is : List BusyInterval)
    → IsOrdered starts_before is
    → Any (Holds t) (merge_sorted is) ↔ Any (Holds t) is
unfolding merge_sorted
merge_sorted-Any t [] o = ((λ a. a), (λ a. a))
merge_sorted-Any t (i ∷ is) o = elim (Bool-cases (is_skipped i)) [
  | inl s ↦
      let (to, from) = merge_sorted-Any t is o.1 in
      rw s (
        (λ a. inr (to a)),
        (λ a. elim a [ inl h ↦ absurd (skipped-Holds t i s h) | inr h ↦ from h ]),
      )
  | inr s ↦ rw s (merge_after-Any t i is s o.0 o.1, merge_after-Any_inv t i is s o.0 o.1)
]

merge_sorted-AreApart :
    (is : List BusyInterval) → IsOrdered starts_before is → AreApart (merge_sorted is)
unfolding merge_sorted
merge_sorted-AreApart [] o = tt
merge_sorted-AreApart (i ∷ is) o = elim (Bool-cases (is_skipped i)) [
  | inl s ↦ rw s (merge_sorted-AreApart is o.1)
  | inr s ↦ rw s (merge_after-AreApart i is s o.1)
]

-- For any intervals, in any order, invalid and empty ones included: an instant is busy in the merged
-- intervals exactly when it is busy in one of the given ones.
pub merge_busy_intervals-Any :
    (t : ℕ) (intervals : List BusyInterval)
    → Any (Holds t) (merge_busy_intervals intervals) ↔ Any (Holds t) intervals
unfolding merge_busy_intervals
merge_busy_intervals-Any t intervals =
    let sorted = sort_by starts_before intervals in
    let (to, from) =
      merge_sorted-Any t sorted
        (sort_by-IsOrdered starts_before starts_asym starts_trans intervals) in
    (
      (λ a. Any-sort_by starts_before (Holds t) intervals (to a)),
      (λ a. from (Any-sort_by_inv starts_before (Holds t) intervals a)),
    )

-- For any intervals the merged ones are valid and not empty, in order, and each ends before the next one
-- starts: none of them overlap or touch.
pub merge_busy_intervals-AreApart :
    (intervals : List BusyInterval) → AreApart (merge_busy_intervals intervals)
unfolding merge_busy_intervals
merge_busy_intervals-AreApart intervals =
    merge_sorted-AreApart (sort_by starts_before intervals)
      (sort_by-IsOrdered starts_before starts_asym starts_trans intervals)
