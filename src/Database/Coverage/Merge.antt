-- ===== src/Database/Coverage/Merge.antt =====
-- The bounds that `mergeSyncCoverageInternal` merges to.
use omacalendar.Base.{
  ℕ, ◌≤◌, min, max, ◌≡◌, refl, ◌⊎◌, inl, inr, some, List, [], ◌∷◌, arith, le_cases, All, Any,
}
use omacalendar.Database.{SyncCoverage}
use omacalendar.Database.Coverage.{widen_start, widen_end, merged_bounds}
use omacalendar.Database.Coverage.Ranges.{instant, IsProper}

-- The least range around `start` to `end` and the rows.
pub record IsHull (rs : List SyncCoverage) (start end from to : ℕ) : Type 0 where
  pub below : from ≤ start
  pub above : end ≤ to
  pub inside : All (λ r. (from ≤ instant r.start_utc) × (instant r.end_utc ≤ to)) rs
  pub from_is : (from ≡ start) ⊎ Any (λ r. instant r.start_utc ≡ from) rs
  pub to_is : (to ≡ end) ⊎ Any (λ r. instant r.end_utc ≡ to) rs

widened_start :
    (r : SyncCoverage) (start : ℕ)
    → IsProper r
    → widen_start r.start_utc (some start) ≡ some (min (instant r.start_utc) start)
widened_start r start p = ground arith

widened_end :
    (r : SyncCoverage) (end : ℕ)
    → IsProper r
    → widen_end r.end_utc (some end) ≡ some (max (instant r.end_utc) end)
widened_end r end p = ground arith

merged_cons-IsHull :
    (r : SyncCoverage) (rs : List SyncCoverage) (start end from to : ℕ)
    → IsHull rs (min (instant r.start_utc) start) (max (instant r.end_utc) end) from to
    → IsHull (r ∷ rs) start end from to
merged_cons-IsHull r rs start end from to h = record {
  below = omega (arith, h.below);
  above = omega (arith, h.above);
  inside = ((omega (arith, h.below), omega (arith, h.above)), h.inside);
  from_is = elim h.from_is [ inl e ↦ chosen_min e | inr a ↦ inr (inr a) ];
  to_is = elim h.to_is [ inl e ↦ chosen_max e | inr a ↦ inr (inr a) ];
}
  where
    chosen_min :
        from ≡ min (instant r.start_utc) start
        → (from ≡ start) ⊎ Any (λ r. instant r.start_utc ≡ from) (r ∷ rs)
    chosen_min e = elim (le_cases start (instant r.start_utc)) [
      | inl l ↦ inl (omega arith)
      | inr l ↦ inr (inl (omega arith))
    ]

    chosen_max :
        to ≡ max (instant r.end_utc) end → (to ≡ end) ⊎ Any (λ r. instant r.end_utc ≡ to) (r ∷ rs)
    chosen_max e = elim (le_cases (instant r.end_utc) end) [
      | inl l ↦ inl (omega arith)
      | inr l ↦ inr (inl (omega arith))
    ]

-- On proper rows the loop computes the hull.
pub merged_bounds-IsHull :
    (rs : List SyncCoverage) (start end : ℕ)
    → All IsProper rs
    → (from : ℕ) × (to : ℕ) × (merged_bounds rs (some start) (some end) ≡ (some from, some to))
      × IsHull rs start end from to
unfolding merged_bounds
merged_bounds-IsHull [] start end p = (
  start,
  end,
  refl,
  record {
    below = omega arith;
    above = omega arith;
    inside = tt;
    from_is = inl refl;
    to_is = inl refl;
  },
)
merged_bounds-IsHull (r ∷ rs) start end p =
    let (from, to, e, h) =
      merged_bounds-IsHull rs (min (instant r.start_utc) start) (max (instant r.end_utc) end) p.1 in
    (
      from,
      to,
      rw (widened_start r start p.0, widened_end r end p.0) e,
      merged_cons-IsHull r rs start end from to h,
    )
