-- ===== src/Database/Coverage/Ranges.antt =====
-- The instants that the rows of a calendar cover, and the invariant that its rows stand apart.
use omacalendar.Base.{
  ℕ, ◌≤◌, ◌<◌, String, ◌≡◌, inl, inr, true, false, none, some, List, arith, Bool-cases, All, Any,
  any, All-Any, Any-mono, any→Any, any-false, All-zip, Stamp,
}
use omacalendar.Database.{SyncCoverage}
use omacalendar.Database.Coverage.{in_calendar_rows, spans}

abbrev pub instant : Stamp → ℕ
instant none = 0
instant (some t) = t

-- A complete row with valid bounds in order.
abbrev pub IsProper : SyncCoverage → Type 0
IsProper r =
    (r.start_utc ≡ some (instant r.start_utc))
    × (r.end_utc ≡ some (instant r.end_utc))
    × (instant r.start_utc < instant r.end_utc)
    × (r.complete ≡ true)

-- From the start of a row up to its end, which is left out.
abbrev pub Contains : ℕ → SyncCoverage → Type 0
Contains t r = (instant r.start_utc ≤ t) × (t < instant r.end_utc)

abbrev pub IsOf : String → SyncCoverage → Type 0
IsOf calendar_id r = in_calendar_rows calendar_id r ≡ true

-- Some row of the calendar contains the instant.
abbrev pub Covers : String → ℕ → List SyncCoverage → Type 0
Covers calendar_id t = Any (λ r. IsOf calendar_id r × Contains t r)

-- Two rows of the calendar that meet or touch have the same bounds.
abbrev pub IsApart : String → SyncCoverage → SyncCoverage → Type 0
IsApart calendar_id r q =
    IsOf calendar_id r
    → IsOf calendar_id q
    → instant r.start_utc ≤ instant q.end_utc
    → instant q.start_utc ≤ instant r.end_utc
    → (instant r.start_utc ≡ instant q.start_utc) × (instant r.end_utc ≡ instant q.end_utc)

-- The rows are proper, and those of the calendar stand apart.
abbrev pub IsSeparated : String → List SyncCoverage → Type 0
IsSeparated calendar_id rows = All IsProper rows × All (λ r. All (IsApart calendar_id r) rows) rows

-- A query that says "covered" is right about every instant of its range.
pub any-Covers :
    (calendar_id : String) (rows : List SyncCoverage) (start end t : ℕ)
    → All IsProper rows
    → any (spans calendar_id (some start) (some end)) rows ≡ true
    → start ≤ t
    → t < end
    → Covers calendar_id t rows
any-Covers calendar_id rows start end t p e a b =
    Any-mono (λ r. spans calendar_id (some start) (some end) r ≡ true)
      (λ r. IsOf calendar_id r × Contains t r) IsProper (λ r h q. ground arith) rows p
      (any→Any (spans calendar_id (some start) (some end)) rows e)

-- On separated rows, one row that starts in time and does not span the range leaves its own end
-- uncovered.
gap :
    (calendar_id : String) (rows : List SyncCoverage) (r : SyncCoverage) (end : ℕ)
    → IsOf calendar_id r
    → IsProper r
    → All (IsApart calendar_id r) rows
    → instant r.end_utc < end
    → Covers calendar_id (instant r.end_utc) rows
    → ⊥
gap calendar_id rows r end o p apart lt c =
    let (q, a, (oq, cq)) =
      All-Any (IsApart calendar_id r) (λ q. IsOf calendar_id q × Contains (instant r.end_utc) q)
        rows apart c in
    omega (arith, a o oq (omega arith) cq.0)

-- On separated rows it says "covered" whenever every instant of its range is.
pub Covers-any :
    (calendar_id : String) (rows : List SyncCoverage) (start end : ℕ)
    → IsSeparated calendar_id rows
    → start < end
    → ((t : ℕ) → start ≤ t → t < end → Covers calendar_id t rows)
    → any (spans calendar_id (some start) (some end)) rows ≡ true
Covers-any calendar_id rows start end (p, apart) lt c =
    elim (Bool-cases (any (spans calendar_id (some start) (some end)) rows)) [
      | inl e ↦ e
      | inr e ↦
          let (r, ((pr, ar), sr), (o, cr)) =
            All-Any
              (λ r.
                (IsProper r × All (IsApart calendar_id r) rows)
                × (spans calendar_id (some start) (some end) r ≡ false))
              (λ r. IsOf calendar_id r × Contains start r) rows
              (All-zip (λ r. IsProper r × All (IsApart calendar_id r) rows)
                (λ r. spans calendar_id (some start) (some end) r ≡ false) rows
                (All-zip IsProper (λ r. All (IsApart calendar_id r) rows) rows p apart)
                (any-false (spans calendar_id (some start) (some end)) rows e))
              (c start (omega arith) lt) in
          absurd (
            gap calendar_id rows r end o pr ar (short calendar_id start end r o pr cr sr)
              (c (instant r.end_utc) (omega arith) (short calendar_id start end r o pr cr sr)))
    ]
  where
    short :
        (calendar_id : String) (start end : ℕ) (r : SyncCoverage)
        → IsOf calendar_id r
        → IsProper r
        → Contains start r
        → spans calendar_id (some start) (some end) r ≡ false
        → instant r.end_utc < end
    short calendar_id start end r o p c e = ground arith
