-- ===== src/Sync/Coordinator/Fair.antt =====
-- The backfill of the coordinator, tick after tick, each over what the database holds at the time.
use mathlib.Core.Path.{subst}
use omacalendar.Base.{
  ℕ, zero, suc, ◌≤◌, ◌<◌, ◌≡◌, refl, sym, ap, ◌≢◌, List, [], ◌∷◌, map, arith, length, All, Any,
  Stamp,
}
use omacalendar.Database.{CalendarRow, Store, ok, Sql}
use omacalendar.Sync.Coordinator.{Providers, all_calendars}
use omacalendar.Sync.Coordinator.Backfill.{
  Decision, ends, decide, decide_at, Tick, tick, run_older_history_backfill,
}
use omacalendar.Sync.Coordinator.Rounds.{rounds, Schedules, IsDue, IsAt, rounds-Any}

-- What a tick meets: which statements run, and the database.
pub record Moment : Type 0 where
  pub sql : Sql
  pub store : Store

-- No calendar ends the loop: its account and its coverage can be read, and it has coverage.
not_ends :
    (decides : CalendarRow → Decision) (cs : List CalendarRow)
    → All (λ c. decides c ≢ ends) cs
    → (j : ℕ) → j < length cs
    → decide_at decides cs j ≢ ends
not_ends decides [] h j l e = absurd (omega (arith, l))
not_ends decides (c ∷ cs) h zero l e = h.0 e
not_ends decides (c ∷ cs) h (suc j) l e = not_ends decides cs h.1 j (omega (arith, l)) e

module _ (year_before : Stamp → Stamp) (floor : Stamp) (ps : Providers) where
  -- The ticks one after the other.
  unfoldable pub backfills : List Moment → ℕ → List Tick
  backfills [] cursor = []
  backfills (m ∷ ms) cursor =
      let now = run_older_history_backfill m.sql year_before floor ps m.store cursor in
      now ∷ backfills ms now.cursor

  abbrev pub decides_at : Moment → CalendarRow → Decision
  decides_at m = decide m.sql year_before floor ps m.store

  -- The calendars are listed, the i-th of them has older history to request, and none of them ends the
  -- tick.
  abbrev pub IsDueAt : List CalendarRow → ℕ → Moment → Type 0
  IsDueAt cs i m =
      (all_calendars (m.sql 0) ps m.store ≡ ok cs)
      × Schedules (decide_at (decides_at m) cs i)
      × All (λ c. decides_at m c ≢ ends) cs

  backfills-rounds :
      (cs : List CalendarRow) (i : ℕ) (ms : List Moment) (cursor : ℕ)
      → All (IsDueAt cs i) ms
      → backfills ms cursor ≡ rounds (length cs) (map (λ m. decide_at (decides_at m) cs) ms) cursor
  unfolding backfills rounds run_older_history_backfill
  backfills-rounds cs i [] cursor due = refl
  backfills-rounds cs i (m ∷ ms) cursor due = rw due.0.0 (
      ap (λ ts. tick (decide_at (decides_at m) cs) (length cs) cursor ∷ ts)
        (backfills-rounds cs i ms (tick (decide_at (decides_at m) cs) (length cs) cursor).cursor
          due.1))

  All-IsDue :
      (cs : List CalendarRow) (i : ℕ) (ms : List Moment)
      → All (IsDueAt cs i) ms
      → All (IsDue (length cs) i) (map (λ m. decide_at (decides_at m) cs) ms)
  All-IsDue cs i [] due = tt
  All-IsDue cs i (m ∷ ms) due =
      ((due.0.1, not_ends (decides_at m) cs due.0.2), All-IsDue cs i ms due.1)

length-map : {A B : Type 0} (f : A → B) (xs : List A) → length (map f xs) ≡ length xs
length-map f [] = refl
length-map f (x ∷ xs) = ap (λ n. suc n) (length-map f xs)

-- The backfill is fair: over as many ticks as there are calendars, from any cursor within them, the
-- i-th calendar gets a request, if at each tick the same calendars are listed, the i-th of them has
-- older history that a provider accepts a request for, and none of them ends the tick (by an error,
-- or by having no coverage yet).
pub backfills-Any :
    (year_before : Stamp → Stamp) (floor : Stamp) (ps : Providers) (cs : List CalendarRow)
    (i cursor : ℕ) (ms : List Moment)
    → i < length cs
    → cursor < length cs
    → length cs ≤ length ms
    → All (IsDueAt year_before floor ps cs i) ms
    → Any (λ t. IsAt i t.scheduled) (backfills year_before floor ps ms cursor)
backfills-Any year_before floor ps cs i cursor ms i_lt c enough due =
    subst (Any (λ t. IsAt i t.scheduled))
      (sym (backfills-rounds year_before floor ps cs i ms cursor due))
      (rounds-Any (length cs) i cursor
        (map (λ m. decide_at (decides_at year_before floor ps m) cs) ms) i_lt c
        (omega
          (arith, enough, length-map (λ m. decide_at (decides_at year_before floor ps m) cs) ms))
        (All-IsDue year_before floor ps cs i ms due))
