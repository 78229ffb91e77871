-- ===== src/Base/Stamps.antt =====
-- Points in time. A `QDateTime` that may be invalid, and the column that `isoUtc` fills from it
-- (empty for an invalid one), is an `Option ℕ`: milliseconds from an origin before every date of the
-- four-digit years that the columns hold. Their texts are compared as texts, and the empty text comes
-- before all others, as an invalid `QDateTime` comes before all valid ones.
use Prim.Native.Nat.{ℕ}
use mathlib.Core.Bool.{Bool, true, false}
use mathlib.Core.Option.{Option, none, some}
use omacalendar.Base.Tests.{ltb, leb, ◌==◌}

abbrev pub Stamp : Type 0
Stamp = Option ℕ

abbrev pub is_valid : Stamp → Bool
is_valid none = false
is_valid (some t) = true

abbrev pub stamp_le : Stamp → Stamp → Bool
stamp_le none u = true
stamp_le (some t) none = false
stamp_le (some t) (some u) = leb t u

abbrev pub stamp_lt : Stamp → Stamp → Bool
stamp_lt none none = false
stamp_lt none (some u) = true
stamp_lt (some t) none = false
stamp_lt (some t) (some u) = ltb t u

abbrev pub stamp_eq : Stamp → Stamp → Bool
stamp_eq none none = true
stamp_eq none (some u) = false
stamp_eq (some t) none = false
stamp_eq (some t) (some u) = t == u
