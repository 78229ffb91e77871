-- ===== src/Database/Coverage/Tests.antt =====
-- Tests of the sync coverage, and its theorems at concrete inputs.
use omacalendar.Base.{sort_by, ℕ, ◌≤◌, ◌<◌, ◌≡◌, refl, ◌≢◌, ◌↔◌, true, some, [], ◌∷◌, arith}
use omacalendar.Database.{SyncCoverage, Store, empty_store, ok, Sql}
use omacalendar.Database.Coverage.{
  is_sync_range_covered, merged_bounds, merged_row, merge_sync_coverage_internal,
  record_sync_coverage,
}
use omacalendar.Database.Coverage.Ranges.{Covers, IsSeparated}
use omacalendar.Database.Coverage.Record.{
  IsRecorded, record_sync_coverage_lem, is_sync_range_covered_iff,
}

abbrev runs : Sql
runs k = true

abbrev row : ℕ → ℕ → SyncCoverage
row start end = merged_row 0 "home" (some start, some end)

abbrev two_rows : Store
two_rows = record empty_store { sync_coverage = row 10 20 ∷ row 30 40 ∷ [] }

-- The two rows and the gap between them become one row; a range that touches is merged too.
gap_closed :
    (record_sync_coverage runs two_rows 5 "home" (some 20) (some 30)).0.sync_coverage
    ≡ merged_row 5 "home" (some 10, some 40) ∷ []
unfolding record_sync_coverage merge_sync_coverage_internal merged_bounds sort_by
gap_closed = refl

apart_kept :
    (record_sync_coverage runs two_rows 5 "home" (some 50) (some 60)).0.sync_coverage
    ≡ row 10 20 ∷ row 30 40 ∷ merged_row 5 "home" (some 50, some 60) ∷ []
unfolding record_sync_coverage merge_sync_coverage_internal merged_bounds sort_by
apart_kept = refl

two_rows-IsSeparated : IsSeparated "home" two_rows.sync_coverage
two_rows-IsSeparated = (
  ((refl, refl, omega arith, refl), ((refl, refl, omega arith, refl), tt)),
  (
    ((λ a b c d. (refl, refl)), ((λ a b c d. absurd (omega arith)), tt)),
    (((λ a b c d. absurd (omega arith)), ((λ a b c d. (refl, refl)), tt)), tt),
  ),
)

record_sync_coverage_lem_example :
    let r = record_sync_coverage runs two_rows 5 "home" (some 15) (some 35) in
    (r.1 ≡ ok tt → IsRecorded "home" 15 35 two_rows.sync_coverage r.0.sync_coverage)
    × (r.1 ≢ ok tt → r.0 ≡ two_rows)
record_sync_coverage_lem_example =
    record_sync_coverage_lem runs two_rows 5 "home" 15 35 two_rows-IsSeparated

is_sync_range_covered_iff_example :
    (is_sync_range_covered true two_rows "home" (some 12) (some 18) ≡ ok true)
    ↔ ((t : ℕ) → 12 ≤ t → t < 18 → Covers "home" t two_rows.sync_coverage)
is_sync_range_covered_iff_example =
    is_sync_range_covered_iff two_rows "home" 12 18 two_rows-IsSeparated refl (omega arith)
