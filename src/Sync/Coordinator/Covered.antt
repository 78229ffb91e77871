-- ===== src/Sync/Coordinator/Covered.antt =====
-- What a complete hydration says of the calendars.
use mathlib.Core.Path.{subst}
use omacalendar.Base.{
  ℕ, suc, ◌*◌, String, ◌≡◌, refl, sym, ◌≢◌, inl, inr, Bool, true, false, not, ◌||◌, none, List, [],
  ◌∷◌, ◌++◌, ltb, if◌then◌else◌, Bool-cases, All, any, Stamp, is_valid, stamp_le,
}
use omacalendar.Database.{CalendarRow, AccountRow, Store, Result, ok, failed}
use omacalendar.Database.Coverage.{has_bad_bounds, spans, is_sync_range_covered}
use omacalendar.Sync.Coordinator.{ProviderKind, Providers, find_account, kind_of, is_ranged}
use omacalendar.Sync.Coordinator.Hydration.{
  Hydration, Reads, nothing_yet, days_to, calendars_asked, Step, continues, breaks, run_step,
  check_coverage, check_account, hydrate_calendar, hydrate_all, hydrate_found,
  ensure_range_hydrated,
}

module _ (reads : Reads) (ps : Providers) (s : Store) (start end : Stamp) where
  -- A calendar that is shown and whose provider can be asked for a range is covered by a complete row.
  abbrev pub IsCovered : CalendarRow → Type 0
  IsCovered c =
      c.enabled ≡ true
      → (a : AccountRow) → find_account true s c.account_id ≡ ok a
      → is_ranged (kind_of ps a) ≡ true
      → any (spans c.id start end) s.sync_coverage ≡ true

  -- What a step that goes on says if no calendar is found uncovered after it; a `break` leaves an error.
  abbrev StepSays : CalendarRow → Hydration → Step → Type 0
  StepSays c h (continues h') = h'.uncovered ≡ [] → (h.uncovered ≡ []) × IsCovered c
  StepSays c h (breaks h') = h'.error ≢ none

  snoc_not_nil : (xs : List String) (x : String) → xs ++ x ∷ [] ≢ []
  snoc_not_nil [] x e = cc
  snoc_not_nil (y ∷ xs) x e = cc

  covered_ok :
      (runs : Bool) (id : String)
      → is_sync_range_covered runs s id start end ≡ ok true
      → any (spans id start end) s.sync_coverage ≡ true
  unfolding is_sync_range_covered
  covered_ok runs id e = elim (Bool-cases (has_bad_bounds id start end)) [
    | inl b ↦ cc (rw b at e)
    | inr b ↦ elim (Bool-cases runs) [ inl r ↦ cc (rw (b, r) at e) | inr r ↦ cc (rw (b, r) at e) ]
  ]

  check_coverage-Says :
      (k : ℕ) (kind : ProviderKind) (c : CalendarRow) (h : Hydration) (r : Result Bool)
      → is_sync_range_covered (reads.covered k) s c.id start end ≡ r
      → StepSays c h (check_coverage reads ps s start end r kind c h)
  unfolding check_coverage
  check_coverage-Says k kind c h (failed f) e = λ n. cc
  check_coverage-Says k kind c h (ok true) e =
      λ u. (u, λ _ _ _ _. covered_ok (reads.covered k) c.id e)
  check_coverage-Says k kind c h (ok false) e = λ u. absurd (snoc_not_nil h.uncovered c.id u)

  same_account :
      (runs : Bool) (id : String) (a b : AccountRow)
      → find_account runs s id ≡ ok a
      → find_account true s id ≡ ok b
      → a ≡ b
  same_account true id a b e f = cc
  same_account false id a b e f = cc

  other_account :
      (runs : Bool) (id : String) (a b : AccountRow)
      → find_account runs s id ≡ ok a
      → find_account true s id ≡ ok b
      → is_ranged (kind_of ps b) ≡ true
      → is_ranged (kind_of ps a) ≡ true
  other_account runs id a b e f g =
      subst (λ x. is_ranged (kind_of ps x) ≡ true) (sym (same_account runs id a b e f)) g

  check_account-Says :
      (k : ℕ) (c : CalendarRow) (h : Hydration) (r : Result AccountRow)
      → find_account (reads.account k) s c.account_id ≡ r
      → StepSays c h (check_account reads ps s start end k r c h)
  unfolding check_account
  check_account-Says k c h (failed f) e = λ n. cc
  check_account-Says k c h (ok a) e = elim (Bool-cases (is_ranged (kind_of ps a))) [
    | inl r ↦ rw r (check_coverage-Says k (kind_of ps a) c h _ refl)
    | inr r ↦
        rw r (λ u. (u, λ _ b f g. cc (r, other_account (reads.account k) c.account_id a b e f g)))
  ]

  hydrate_calendar-Says :
      (k : ℕ) (c : CalendarRow) (h : Hydration)
      → StepSays c h (hydrate_calendar reads ps s start end k c h)
  unfolding hydrate_calendar
  hydrate_calendar-Says k c h =
      let found = find_account (reads.account k) s c.account_id in
      let P = λ (b : Bool).
        StepSays c h (if b then check_account reads ps s start end k found c h else continues h) in
      elim (Bool-cases c.enabled) [
        | inl e ↦ subst P (sym e) (check_account-Says k c h found refl)
        | inr e ↦ subst P (sym e) (λ u. (u, λ d _ _ _. cc (d, e)))
      ]

  after_step :
      (c : CalendarRow) (cs : List CalendarRow) (h : Hydration) (step : Step)
      (rest : Hydration → Hydration)
      → StepSays c h step
      → ((h' : Hydration)
          → (rest h').error ≡ none
          → (rest h').uncovered ≡ []
          → (h'.uncovered ≡ []) × All IsCovered cs)
      → (run_step step rest).error ≡ none
      → (run_step step rest).uncovered ≡ []
      → (h.uncovered ≡ []) × All IsCovered (c ∷ cs)
  after_step c cs h (breaks h') rest says later n u = absurd (says n)
  after_step c cs h (continues h') rest says later n u =
      let l = later h' n u in let here = says l.0 in (here.0, (here.1, l.1))

  hydrate_all-IsCovered :
      (k : ℕ) (cs : List CalendarRow) (h : Hydration)
      → (hydrate_all reads ps s start end k cs h).error ≡ none
      → (hydrate_all reads ps s start end k cs h).uncovered ≡ []
      → (h.uncovered ≡ []) × All IsCovered cs
  unfolding hydrate_all
  hydrate_all-IsCovered k [] h n u = (u, tt)
  hydrate_all-IsCovered k (c ∷ cs) h n u =
      after_step c cs h (hydrate_calendar reads ps s start end k c h)
        (λ h'. hydrate_all reads ps s start end (suc k) cs h') (hydrate_calendar-Says k c h)
        (hydrate_all-IsCovered (suc k) cs) n u

no_uncovered : (xs : List String) → not (any (λ id. true) xs) ≡ true → xs ≡ []
no_uncovered [] e = refl
no_uncovered (x ∷ xs) e = cc

found_lem :
    (reads : Reads) (ps : Providers) (s : Store) (start end : Stamp) (calendars : List CalendarRow)
    → (hydrate_found reads ps s start end (ok calendars)).complete ≡ true
    → (hydrate_found reads ps s start end (ok calendars)).error ≡ none
    → All (IsCovered reads ps s start end) calendars
unfolding hydrate_found
found_lem reads ps s start end calendars complete clean =
    (hydrate_all-IsCovered reads ps s start end 0 calendars nothing_yet clean (
      no_uncovered (hydrate_all reads ps s start end 0 calendars nothing_yet).uncovered complete)).1

-- If the hydration of a range reports that it is complete, and no error, then every calendar that it
-- was asked about is covered by a row of complete coverage, if it is shown and its provider can be
-- asked for a range.
pub ensure_range_hydrated-IsCovered :
    (reads : Reads) (ps : Providers) (s : Store) (start end : Stamp) (ids : List String)
    (calendars : List CalendarRow)
    → calendars_asked reads ps s ids ≡ ok calendars
    → (ensure_range_hydrated reads ps s start end ids).complete ≡ true
    → (ensure_range_hydrated reads ps s start end ids).error ≡ none
    → All (IsCovered reads ps s start end) calendars
unfolding ensure_range_hydrated
ensure_range_hydrated-IsCovered reads ps s start end ids calendars asked complete clean =
    elim (Bool-cases (not (is_valid start) || not (is_valid end) || stamp_le end start)) [
      | inl b ↦ cc (rw b at complete)
      | inr b ↦ elim (Bool-cases (ltb (5 * 366) (days_to start end))) [
        | inl d ↦ cc (rw (b, d) at complete)
        | inr d ↦
            found_lem reads ps s start end calendars (rw (b, d, asked) at complete)
              (rw (b, d, asked) at clean)
      ]
    ]
