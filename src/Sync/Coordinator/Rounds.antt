-- ===== src/Sync/Coordinator/Rounds.antt =====
-- The backfill reaches every calendar in turn.
use mathlib.Core.Path.{subst}
use native.Mathlib.Nat.{mod-lt, mod-eq_of_lt, mod-eq-sub-mod, add-mod_left}
use omacalendar.Base.{
  ℕ, zero, suc, ◌+◌, ◌-◌, ◌%◌, ◌≤◌, ◌<◌, ◌≡◌, refl, sym, ap, ◌∙◌, ◌≢◌, ◌⊎◌, inl, inr, Option, none,
  some, List, [], ◌∷◌, arith, leb, if◌then◌else◌, leb→le, Bool-cases, lt_cases, length, All, Any,
}
use omacalendar.Sync.Coordinator.{RangeSyncRequest}
use omacalendar.Sync.Coordinator.Backfill.{
  Decision, skips, ends, schedules, search, Tick, advance, tick,
}

-- The ticks one after the other, each with what the calendars need at the time.
unfoldable pub rounds : ℕ → List (ℕ → Decision) → ℕ → List Tick
rounds n [] cursor = []
rounds n (decides ∷ ticks) cursor =
    let now = tick decides n cursor in now ∷ rounds n ticks now.cursor

abbrev pub Schedules : Decision → Type 0
Schedules (schedules request) = Unit
Schedules _ = ⊥

-- The calendar has a range to request, and none of the `n` calendars ends the loop.
abbrev pub IsDue : ℕ → ℕ → (ℕ → Decision) → Type 0
IsDue n i decides = Schedules (decides i) × ((j : ℕ) → j < n → decides j ≢ ends)

abbrev pub IsAt : ℕ → Option (ℕ × RangeSyncRequest) → Type 0
IsAt i none = ⊥
IsAt i (some (index, request)) = index ≡ i

-- How far the calendar is ahead of the cursor.
abbrev ahead : ℕ → ℕ → ℕ → ℕ
ahead n cursor i = if leb cursor i then i - cursor else n + i - cursor

wrap : (n a : ℕ) → a < n + n → (a % n ≡ a × a < n) ⊎ ((a % n ≡ a - n) × n ≤ a)
wrap n a h = elim (lt_cases a n) [
  | inl l ↦ inl (mod-eq_of_lt l, l)
  | inr l ↦ inr (mod-eq-sub-mod l ∙ mod-eq_of_lt (omega (arith, h, l)), l)
]

module _ (n i : ℕ) (i_lt : i < n) where
  cursor_up : (cursor : ℕ) → cursor ≤ i → cursor + (i - cursor) ≡ i
  cursor_up cursor h = omega (arith, h)

  cursor_over : (cursor : ℕ) → cursor < n → cursor + (n + i - cursor) ≡ n + i
  cursor_over cursor h = omega (arith, h)

  at_ahead : (cursor : ℕ) → cursor < n → (cursor + ahead n cursor i) % n ≡ i
  at_ahead cursor c = elim (Bool-cases (leb cursor i)) [
    | inl e ↦ rw e (ap (λ x. x % n) (cursor_up cursor (leb→le cursor i e)) ∙ mod-eq_of_lt i_lt)
    | inr e ↦ rw e (ap (λ x. x % n) (cursor_over cursor c) ∙ add-mod_left n i ∙ mod-eq_of_lt i_lt)
  ]

  ahead-lt : (cursor : ℕ) → cursor < n → ahead n cursor i < n
  ahead-lt cursor c = ground arith

  -- The loop finds a calendar that is no further ahead.
  abbrev IsFound : ℕ → Option (ℕ × RangeSyncRequest) → Type 0
  IsFound cursor none = ⊥
  IsFound cursor (some (index, request)) =
      (k : ℕ) × (k ≤ ahead n cursor i) × (index ≡ (cursor + k) % n)

  search-IsFound :
      (decides : ℕ → Decision) (cursor left checked : ℕ)
      → cursor < n
      → IsDue n i decides
      → checked ≤ ahead n cursor i
      → ahead n cursor i < checked + left
      → IsFound cursor (search decides n cursor left checked)
  unfolding search
  search-IsFound decides cursor zero checked c due a b = absurd (omega (arith, a, b))
  search-IsFound decides cursor (suc left) checked c due a b =
      by_decision (decides ((cursor + checked) % n)) refl
        (λ l. search-IsFound decides cursor left (suc checked) c due l (omega (arith, b)))
    where
      by_decision :
          (decision : Decision)
          → decides ((cursor + checked) % n) ≡ decision
          → (checked < ahead n cursor i
              → IsFound cursor (search decides n cursor left (suc checked)))
          → IsFound cursor (search decides n cursor (suc left) checked)
      by_decision (schedules request) e next = rw (search, e) (checked, a, refl)
      by_decision ends e next =
          absurd
            (due.1 ((cursor + checked) % n) (mod-lt (cursor + checked) (omega (arith, i_lt))) e)
      by_decision skips e next =
          rw (search, e)
            (elim (lt_cases checked (ahead n cursor i)) [
              | inl l ↦ next l
              | inr l ↦
                  let same : checked ≡ ahead n cursor i = omega (arith, a, l) in
                  let at : (cursor + checked) % n ≡ i =
                    ap (λ x. (cursor + x) % n) same ∙ at_ahead cursor c in
                  absurd (subst Schedules (ap decides (sym at) ∙ e) due.0)
            ])

  index_lt : (cursor index k : ℕ) → index ≡ (cursor + k) % n → index + 1 < n + n
  index_lt cursor index k at =
      omega (arith, at, i_lt, mod-lt (cursor + k) {m = n} (omega (arith, i_lt)))

  -- One place past what was found is nearer.
  nearer :
      (cursor k index next : ℕ)
      → cursor < n
      → k < ahead n cursor i
      → ((index ≡ cursor + k) × cursor + k < n) ⊎ ((index ≡ cursor + k - n) × n ≤ cursor + k)
      → ((next ≡ index + 1) × index + 1 < n) ⊎ ((next ≡ index + 1 - n) × n ≤ index + 1)
      → ahead n next i < ahead n cursor i
  nearer cursor k index next c l (inl p) (inl q) = ground (arith, p.0, p.1, q.0, q.1)
  nearer cursor k index next c l (inl p) (inr q) = ground (arith, p.0, p.1, q.0, q.1)
  nearer cursor k index next c l (inr p) (inl q) = ground (arith, p.0, p.1, q.0, q.1)
  nearer cursor k index next c l (inr p) (inr q) = ground (arith, p.0, p.1, q.0, q.1)

  after_tick :
      (cursor : ℕ) (o : Option (ℕ × RangeSyncRequest))
      → cursor < n
      → IsFound cursor o
      → IsAt i (advance n cursor o).scheduled
        ⊎ ((advance n cursor o).cursor < n
            × ahead n (advance n cursor o).cursor i < ahead n cursor i)
  after_tick cursor none c f = absurd f
  after_tick cursor (some (index, request)) c (k, le, at) = elim (lt_cases k (ahead n cursor i)) [
    | inr l ↦
        let same : k ≡ ahead n cursor i = omega (arith, le, l) in
        inl (at ∙ ap (λ x. (cursor + x) % n) same ∙ at_ahead cursor c)
    | inl l ↦ inr (
      mod-lt (index + 1) (omega (arith, c)),
      nearer cursor k index ((index + 1) % n) c l
          (subst
            (λ x. ((x ≡ cursor + k) × cursor + k < n) ⊎ ((x ≡ cursor + k - n) × n ≤ cursor + k))
            (sym at) (wrap n (cursor + k) (omega (arith, c, l, ahead-lt cursor c))))
          (wrap n (index + 1) (index_lt cursor index k at)),
    )
  ]

  rounds_far :
      (ticks : List (ℕ → Decision)) (cursor : ℕ)
      → cursor < n
      → ahead n cursor i < length ticks
      → All (IsDue n i) ticks
      → Any (λ t. IsAt i t.scheduled) (rounds n ticks cursor)
  unfolding rounds tick
  rounds_far [] cursor c l due = absurd (omega (arith, l))
  rounds_far (decides ∷ ticks) cursor c l due =
      let o = search decides n cursor n 0 in
      let found =
        search-IsFound decides cursor n 0 c due.0 (omega arith)
          (omega (arith, ahead-lt cursor c)) in
      elim (after_tick cursor o c found) [
        | inl at ↦ inl at
        | inr (c', less) ↦
            inr (rounds_far ticks (advance n cursor o).cursor c' (omega (arith, less, l)) due.1)
      ]

-- Over as many ticks as there are calendars, starting anywhere, a calendar that is due at each of them
-- gets its request.
pub rounds-Any :
    (n i cursor : ℕ) (ticks : List (ℕ → Decision))
    → i < n
    → cursor < n
    → n ≤ length ticks
    → All (IsDue n i) ticks
    → Any (λ t. IsAt i t.scheduled) (rounds n ticks cursor)
rounds-Any n i cursor ticks i_lt c enough due =
    rounds_far n i i_lt ticks cursor c (omega (arith, ahead-lt n i i_lt cursor c, enough)) due
