-- ===== src/Base/Table.antt =====
-- A database table as a list of rows: SELECT, UPDATE, DELETE and the count of the rows affected,
-- each with its WHERE clause as a Boolean test.
use Prim.Native.Nat.{ℕ, suc}
use mathlib.Core.Path.{◌≡◌, refl}
use mathlib.Core.Option.{Option, none, some}
use mathlib.Core.Bool.{Bool, true, false, ◌||◌}
use mathlib.Core.List.{List, [], ◌∷◌}
use native.Mathlib.Omega.{arith}
use omacalendar.Base.Tests.{if◌then◌else◌, Bool-cases}
use omacalendar.Base.Lists.{length, All}
use mathlib.Core.Logic.{inl, inr}

module _ {ℓ} {A : Type ℓ} where
  abbrev pub select : (A → Bool) → List A → List A
  select test [] = []
  select test (x ∷ xs) = if test x then x ∷ select test xs else select test xs

  abbrev pub update_where : (A → Bool) → (A → A) → List A → List A
  update_where test f [] = []
  update_where test f (x ∷ xs) = (if test x then f x else x) ∷ update_where test f xs

  abbrev pub delete_where : (A → Bool) → List A → List A
  delete_where test [] = []
  delete_where test (x ∷ xs) = if test x then delete_where test xs else x ∷ delete_where test xs

  abbrev pub count_where : (A → Bool) → List A → ℕ
  count_where test [] = 0
  count_where test (x ∷ xs) = let rest = count_where test xs in if test x then suc rest else rest

  abbrev pub any : (A → Bool) → List A → Bool
  any test [] = false
  any test (x ∷ xs) = test x || any test xs

  pub length-update_where :
      (test : A → Bool) (f : A → A) (xs : List A) → length (update_where test f xs) ≡ length xs
  length-update_where test f [] = refl
  length-update_where test f (x ∷ xs) = omega (arith, length-update_where test f xs)

  -- A property that `f` gives to the rows it meets, and that the other rows have, holds of all.
  pub All-update_where {κ} :
      (P Q : A → Type κ) (test : A → Bool) (f : A → A)
      → ((x : A) → P x → test x ≡ true → Q (f x))
      → ((x : A) → P x → test x ≡ false → Q x)
      → (xs : List A) → All P xs
      → All Q (update_where test f xs)
  All-update_where P Q test f hit miss [] h = tt
  All-update_where P Q test f hit miss (x ∷ xs) h = elim (Bool-cases (test x)) [
    | inl e ↦ (rw e (hit x h.0 e), All-update_where P Q test f hit miss xs h.1)
    | inr e ↦ (rw e (miss x h.0 e), All-update_where P Q test f hit miss xs h.1)
  ]

  pub All-select {κ} :
      (P Q : A → Type κ) (test : A → Bool)
      → ((x : A) → P x → test x ≡ true → Q x)
      → (xs : List A) → All P xs
      → All Q (select test xs)
  All-select P Q test hit [] h = tt
  All-select P Q test hit (x ∷ xs) h = elim (Bool-cases (test x)) [
    | inl e ↦ rw e (hit x h.0 e, All-select P Q test hit xs h.1)
    | inr e ↦ rw e (All-select P Q test hit xs h.1)
  ]

  pub All-delete_where {κ} :
      (P Q : A → Type κ) (test : A → Bool)
      → ((x : A) → P x → test x ≡ false → Q x)
      → (xs : List A) → All P xs
      → All Q (delete_where test xs)
  All-delete_where P Q test kept [] h = tt
  All-delete_where P Q test kept (x ∷ xs) h = elim (Bool-cases (test x)) [
    | inl e ↦ rw e (All-delete_where P Q test kept xs h.1)
    | inr e ↦ rw e (kept x h.0 e, All-delete_where P Q test kept xs h.1)
  ]

-- The first row of a result, as `query.next()` gives it.
abbrev pub first {ℓ} : {A : Type ℓ} → List A → Option A
first [] = none
first (x ∷ xs) = some x
