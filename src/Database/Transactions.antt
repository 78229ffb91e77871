-- ===== src/Database/Transactions.antt =====
-- What the steps of a transaction leave, for src/core/database.cpp: a property of the store that holds
-- if they succeed.
use mathlib.Core.Path.{subst}
use omacalendar.Base.{String, ◌≡◌, refl, sym, Bool, true, false}
use omacalendar.Database.{Store, Result, ok, failed, and_then, statement, atomically}

abbrev pub IfOk {κ} : (Store → Type κ) → Result Store → Type κ
IfOk P (ok s) = P s
IfOk P (failed f) = Unit

pub IfOk-and_then {κ} :
    (P Q : Store → Type κ) (r : Result Store) (next : Store → Result Store)
    → IfOk P r
    → ((s : Store) → P s → IfOk Q (next s))
    → IfOk Q (and_then r next)
IfOk-and_then P Q (ok s) next p f = f s p
IfOk-and_then P Q (failed e) next p f = tt

pub IfOk-statement {κ} :
    (P : Store → Type κ) (runs : Bool) (text : String) (s : Store)
    → P s
    → IfOk P (statement runs text s)
IfOk-statement P true text s p = p
IfOk-statement P false text s p = tt

pub IfOk-equation {κ} :
    (P : Store → Type κ) (r : Result Store) → ((s : Store) → r ≡ ok s → P s) → IfOk P r
IfOk-equation P (ok s) f = f s refl
IfOk-equation P (failed e) f = tt

-- A statement that succeeds has run.
pub IfOk-runs :
    (runs : Bool) (text : String) (s : Store) → IfOk (λ _. runs ≡ true) (statement runs text s)
IfOk-runs true text s = refl
IfOk-runs false text s = tt

pub IfOk-both {κ} :
    (P Q R : Store → Type κ) (r : Result Store)
    → ((s : Store) → P s → Q s → R s)
    → IfOk P r
    → IfOk Q r
    → IfOk R r
IfOk-both P Q R (ok s) f p q = f s p q
IfOk-both P Q R (failed e) f p q = tt

pub IfOk-mono {κ} :
    (P Q : Store → Type κ) (r : Result Store) → ((s : Store) → P s → Q s) → IfOk P r → IfOk Q r
IfOk-mono P Q (ok s) f p = f s p
IfOk-mono P Q (failed e) f p = tt

-- A transaction ends in a store with the property, or where it began.
abbrev pub Ended : (Store → Type 0) → Store → Store × Result (Unit {0}) → Type 0
Ended P s (s', ok u) = P s'
Ended P s (s', failed f) = s' ≡ s

pub Ended-atomically :
    (P : Store → Type 0) (s : Store) (r : Result Store) → IfOk P r → Ended P s (atomically s r)
Ended-atomically P s (ok s') p = p
Ended-atomically P s (failed f) p = refl

pub Ended-ok :
    (P : Store → Type 0) (s : Store) (out : Store × Result (Unit {0}))
    → Ended P s out
    → out.1 ≡ ok tt
    → P out.0
Ended-ok P s (s', ok u) p e = p
Ended-ok P s (s', failed f) p e = cc

pub Ended-kept :
    (P : Store → Type 0) (s : Store) (out : Store × Result (Unit {0}))
    → P s
    → Ended P s out
    → P out.0
Ended-kept P s (s', ok u) h p = p
Ended-kept P s (s', failed f) h e = subst P (sym e) h
