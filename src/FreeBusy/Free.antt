-- ===== src/FreeBusy/Free.antt =====
-- The slot that `nextFreeSlot` finds is free, and the search ends.
use mathlib.Core.Path.{subst}
use omacalendar.Base.{
  ℕ, zero, suc, ◌+◌, ◌*◌, ◌≤◌, ◌<◌, ◌≡◌, refl, ◌≢◌, inl, inr, Bool, true, false, ◌||◌, Option, none,
  some, List, [], ◌∷◌, arith, ltb, leb, ◌==◌, ltb→lt, Bool-cases, Any, select, any, first, Stamp,
  stamp_lt,
}
use omacalendar.FreeBusy.{BusyInterval, later, merge_busy_intervals}
use omacalendar.FreeBusy.Merge.{Holds, merge_busy_intervals-Any}
use omacalendar.FreeBusy.Slots.{
  Zone, round_up, day_end, clashes, find_clash, Round, returns, goes_on, Search, past_clash,
  round_of, after_round, search_slot, from_fuel, start_search, next_free_slot,
}

-- What holds of a round: the time that it returns is a slot, or the candidate that it goes on from is
-- later and still before the horizon when it was looked at.
abbrev pub IsSlot : Zone → Search → ℕ → Type 0
IsSlot zone q t =
    t + q.duration ≤ q.horizon
    × zone.at_hour t q.start_hour ≤ t
    × t + q.duration ≤ day_end zone q.end_hour t
    × (any (clashes t (t + q.duration)) q.merged ≡ false)

abbrev IsGood : Zone → Search → ℕ → Round → Type 0
IsGood zone q t (returns none) = Unit
IsGood zone q t (returns (some u)) = (u ≡ t) × IsSlot zone q u
IsGood zone q t (goes_on u) = (t < u) × t + q.duration ≤ q.horizon

round_up-le : (zone : Zone) (t : ℕ) → t ≤ round_up zone t
round_up-le zone t = ground (arith, zone.second-lt t)

first-select :
    (test : BusyInterval → Bool) (is : List BusyInterval)
    → (first (select test is) ≡ none → any test is ≡ false)
      × ((i : BusyInterval) → first (select test is) ≡ some i → test i ≡ true)
first-select test [] = ((λ _. refl), (λ i e. cc))
first-select test (i ∷ is) = elim (Bool-cases (test i)) [
  | inl e ↦ rw e ((λ f. cc), (λ j f. subst (λ x. test x ≡ true) (cc f) e))
  | inr e ↦ rw e (first-select test is)
]

past_end :
    (zone : Zone) (q : Search) (t : ℕ) (end : Stamp)
    → stamp_lt (some t) end ≡ true
    → t + q.duration ≤ q.horizon
    → IsGood zone q t (elim end [ none ↦ returns none | some u ↦ goes_on (round_up zone u) ])
past_end zone q t none e h = tt
past_end zone q t (some u) e h = (omega (arith, ltb→lt t u e, round_up-le zone u), h)

past_clash-IsGood :
    (zone : Zone) (q : Search) (t : ℕ) (found : Option BusyInterval)
    → find_clash t (t + q.duration) q.merged ≡ found
    → t + q.duration ≤ q.horizon
    → zone.at_hour t q.start_hour ≤ t
    → t + q.duration ≤ day_end zone q.end_hour t
    → IsGood zone q t (past_clash zone t found)
past_clash-IsGood zone q t none e h s d =
    (refl, (h, s, d, (first-select (clashes t (t + q.duration)) q.merged).0 e))
past_clash-IsGood zone q t (some clash) e h s d =
    past_end zone q t clash.end
      (ground (arith, (first-select (clashes t (t + q.duration)) q.merged).1 clash e)) h

round_of-IsGood : (zone : Zone) (q : Search) (t : ℕ) → IsGood zone q t (round_of zone q t)
unfolding round_of
round_of-IsGood zone q t = elim (Bool-cases (ltb q.horizon (t + q.duration))) [
  | inl a ↦ rw a tt
  | inr a ↦ elim (Bool-cases (ltb t (zone.at_hour t q.start_hour))) [
    | inl b ↦ rw (a, b) (ground (arith, a, b))
    | inr b ↦ elim (Bool-cases (ltb (day_end zone q.end_hour t) (t + q.duration))) [
      | inl c ↦ rw (a, b, c) ((zone.next_day-lt t q.start_hour), ground arith)
      | inr c ↦
          rw (a, b, c)
            (past_clash-IsGood zone q t _ refl (ground arith) (ground arith) (ground arith))
    ]
  ]
]

-- A slot that is found, not before the first candidate.
abbrev pub IsFound : Zone → Search → ℕ → Stamp → Type 0
IsFound zone q t none = Unit
IsFound zone q t (some u) = t ≤ u × IsSlot zone q u

IsFound-mono :
    (zone : Zone) (q : Search) (t u : ℕ) (o : Stamp)
    → t ≤ u
    → IsFound zone q u o
    → IsFound zone q t o
IsFound-mono zone q t u none h f = tt
IsFound-mono zone q t u (some v) h f = (omega (arith, h, f.0), f.1)

-- With more fuel than the way to the horizon the search ends, and what it finds is a slot.
abbrev HasEnded : Zone → Search → ℕ → Option Stamp → Type 0
HasEnded zone q t none = ⊥
HasEnded zone q t (some o) = IsFound zone q t o

HasEnded-mono :
    (zone : Zone) (q : Search) (t u : ℕ) (o : Option Stamp)
    → t ≤ u
    → HasEnded zone q u o
    → HasEnded zone q t o
HasEnded-mono zone q t u none h f = f
HasEnded-mono zone q t u (some o) h f = IsFound-mono zone q t u o h f

after_round-HasEnded :
    (zone : Zone) (q : Search) (t : ℕ) (r : Round) (rest : ℕ → Option Stamp)
    → IsGood zone q t r
    → ((u : ℕ) → t < u → t + q.duration ≤ q.horizon → HasEnded zone q u (rest u))
    → HasEnded zone q t (after_round r rest)
after_round-HasEnded zone q t (returns none) rest g later = tt
after_round-HasEnded zone q t (returns (some u)) rest g later = (omega (arith, g.0), g.1)
after_round-HasEnded zone q t (goes_on u) rest g later =
    HasEnded-mono zone q t u (rest u) (omega (arith, g.0)) (later u g.0 g.1)

search_slot-HasEnded :
    (zone : Zone) (q : Search) (fuel t : ℕ)
    → q.horizon < fuel + t
    → 0 < fuel
    → 0 < q.duration
    → HasEnded zone q t (search_slot zone q fuel t)
unfolding search_slot
search_slot-HasEnded zone q zero t h p d = absurd (omega (arith, p))
search_slot-HasEnded zone q (suc fuel) t h p d =
    after_round-HasEnded zone q t (round_of zone q t) (λ u. search_slot zone q fuel u)
      (round_of-IsGood zone q t)
      (λ u l le.
        search_slot-HasEnded zone q fuel u (omega (arith, h, l)) (omega (arith, h, le, d)) d)

-- The result lies in the working hours, between the start of the search and the horizon, and no
-- instant of it is busy.
abbrev pub IsFree : Zone → List BusyInterval → ℕ → ℕ → ℕ → ℕ → ℕ → ℕ → Type 0
IsFree zone busy earliest duration start_hour end_hour horizon t =
    earliest ≤ t
    × t + duration ≤ horizon
    × zone.at_hour t start_hour ≤ t
    × t + duration ≤ day_end zone end_hour t
    × ((u : ℕ) → t ≤ u → u < t + duration → Any (Holds u) busy → ⊥)

clashes-Holds :
    (t u duration : ℕ) (i : BusyInterval)
    → t ≤ u
    → u < t + duration
    → Holds u i
    → clashes t (t + duration) i ≡ true
clashes-Holds t u duration i l h held = ground (arith, held)

any-Holds :
    (t u duration : ℕ) (is : List BusyInterval)
    → t ≤ u
    → u < t + duration
    → any (clashes t (t + duration)) is ≡ false
    → Any (Holds u) is
    → ⊥
any-Holds t u duration [] l h none_clash held = absurd held
any-Holds t u duration (i ∷ is) l h none_clash (inl held) =
    ground (arith, clashes-Holds t u duration i l h held)
any-Holds t u duration (i ∷ is) l h none_clash (inr held) =
    any-Holds t u duration is l h (ground arith) held

ended_IsFound :
    (zone : Zone) (q : Search) (t u : ℕ) (o : Option Stamp)
    → HasEnded zone q t o
    → from_fuel o ≡ some u
    → IsFound zone q t (some u)
ended_IsFound zone q t u none h e = absurd h
ended_IsFound zone q t u (some o) h e = subst (IsFound zone q t) e h

module _ (zone : Zone) (busy : List BusyInterval)
    (earliest minutes start_hour end_hour horizon : ℕ) where
  abbrev query : Search
  query = record {
    merged = merge_busy_intervals busy;
    duration = minutes * 60 * 1000;
    start_hour = start_hour;
    end_hour = end_hour;
    horizon = horizon;
  }

  start_search-HasEnded :
      0 < minutes
      → HasEnded zone query
          (round_up zone earliest)
          (start_search zone busy earliest minutes start_hour end_hour horizon)
  start_search-HasEnded m =
      search_slot-HasEnded zone query (suc horizon) (round_up zone earliest) (omega arith)
        (omega arith) (omega (arith, m))

  -- The search of a free slot ends: its loop, with one round more than there are milliseconds to the
  -- horizon, does not run out of rounds.
  pub start_search_ends :
      0 < minutes → start_search zone busy earliest minutes start_hour end_hour horizon ≢ none
  start_search_ends m e =
      subst (HasEnded zone query (round_up zone earliest)) e (start_search-HasEnded m)

-- A time that is found is a free slot: it is not before the earliest, and the whole duration from it on
-- ends by the horizon, lies in the working hours of its day, and has no instant in any of the busy
-- intervals that were given.
pub next_free_slot-IsFree :
    (zone : Zone) (busy : List BusyInterval) (earliest minutes start_hour end_hour horizon t : ℕ)
    → next_free_slot zone busy (some earliest) minutes start_hour end_hour (some horizon) ≡ some t
    → IsFree zone busy earliest (minutes * 60 * 1000) start_hour end_hour horizon t
unfolding next_free_slot
next_free_slot-IsFree zone busy earliest minutes start_hour end_hour horizon t e =
    elim (Bool-cases ((minutes == 0) || leb end_hour start_hour)) [
      | inl b ↦ cc (rw b at e)
      | inr b ↦
          let m : 0 < minutes = ground arith in
          let q = query zone busy earliest minutes start_hour end_hour horizon in
          let o = start_search zone busy earliest minutes start_hour end_hour horizon in
          let found =
            ended_IsFound zone q (round_up zone earliest) t o
              (start_search-HasEnded zone busy earliest minutes start_hour end_hour horizon m)
              (rw b at e) in
          (
            omega (arith, found.0, round_up-le zone earliest),
            found.1.0,
            found.1.1,
            found.1.2,
            λ u l h held.
                any-Holds t u (minutes * 60 * 1000) q.merged l h found.1.3
                  ((merge_busy_intervals-Any u busy).1 held),
          )
    ]
