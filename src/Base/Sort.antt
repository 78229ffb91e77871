-- ===== src/Base/Sort.antt =====
-- Sorting by a strict order, given as a Boolean test: a stable insertion sort. It stands for the
-- ORDER BY clauses, `std::sort` and `std::stable_sort`.
use mathlib.Core.Bool.{Bool, true, false}
use mathlib.Core.Path.{◌≡◌}
use mathlib.Core.Logic.{◌⊎◌, inl, inr}
use mathlib.Core.List.{List, [], ◌∷◌}
use omacalendar.Base.Tests.{if◌then◌else◌, Bool-cases}
use omacalendar.Base.Lists.{All, Any}

module _ {ℓ} {A : Type ℓ} (less : A → A → Bool) where
  -- Behind those that are not above it.
  pub insert_sorted : A → List A → List A
  insert_sorted x [] = x ∷ []
  insert_sorted x (y ∷ ys) = if less x y then x ∷ y ∷ ys else y ∷ insert_sorted x ys

  insert_all : List A → List A → List A
  insert_all sorted [] = sorted
  insert_all sorted (x ∷ xs) = insert_all (insert_sorted x sorted) xs

  -- In order, elements that the order does not tell apart as they stood.
  unfoldable pub sort_by : List A → List A
  unfolding insert_all insert_sorted
  sort_by xs = insert_all [] xs

  -- No element is below the one before it.
  abbrev pub IsOrdered : List A → Type 0
  IsOrdered [] = Unit
  IsOrdered (x ∷ xs) = All (λ y. less y x ≡ false) xs × IsOrdered xs

-- A sort keeps what holds of every element, and what some element satisfies, both ways.
module _ {A : Type 0} (less : A → A → Bool) (P : A → Type 0) where
  All-insert_sorted : (x : A) (ys : List A) → P x → All P ys → All P (insert_sorted less x ys)
  unfolding insert_sorted
  All-insert_sorted x [] p h = (p, tt)
  All-insert_sorted x (y ∷ ys) p h = elim (Bool-cases (less x y)) [
    | inl e ↦ rw e (p, h)
    | inr e ↦ rw e (h.0, All-insert_sorted x ys p h.1)
  ]

  All-insert_all :
      (sorted xs : List A) → All P sorted → All P xs → All P (insert_all less sorted xs)
  unfolding insert_all
  All-insert_all sorted [] s h = s
  All-insert_all sorted (x ∷ xs) s h =
      All-insert_all (insert_sorted less x sorted) xs (All-insert_sorted x sorted h.0 s) h.1

  pub All-sort_by : (xs : List A) → All P xs → All P (sort_by less xs)
  unfolding sort_by
  All-sort_by xs h = All-insert_all [] xs tt h

  All-insert_sorted_inv : (x : A) (ys : List A) → All P (insert_sorted less x ys) → P x × All P ys
  unfolding insert_sorted
  All-insert_sorted_inv x [] h = h
  All-insert_sorted_inv x (y ∷ ys) h = elim (Bool-cases (less x y)) [
    | inl e ↦ rw e at h
    | inr e ↦
        let (py, rest) : P y × All P (insert_sorted less x ys) = rw e at h in
        let (px, all) = All-insert_sorted_inv x ys rest in (px, (py, all))
  ]

  All-insert_all_inv :
      (sorted xs : List A) → All P (insert_all less sorted xs) → All P sorted × All P xs
  unfolding insert_all
  All-insert_all_inv sorted [] h = (h, tt)
  All-insert_all_inv sorted (x ∷ xs) h =
      let (s, t) = All-insert_all_inv (insert_sorted less x sorted) xs h in
      let (p, s') = All-insert_sorted_inv x sorted s in (s', (p, t))

  pub All-sort_by_inv : (xs : List A) → All P (sort_by less xs) → All P xs
  unfolding sort_by
  All-sort_by_inv xs h = (All-insert_all_inv [] xs h).1

  swap_any : {B C D : Type 0} → (B → C ⊎ D) → {E : Type 0} → E ⊎ B → C ⊎ (E ⊎ D)
  swap_any f (inl e) = inr (inl e)
  swap_any f (inr b) = elim (f b) [ inl c ↦ inl c | inr d ↦ inr (inr d) ]

  Any-insert_sorted : (x : A) (ys : List A) → Any P (insert_sorted less x ys) → P x ⊎ Any P ys
  unfolding insert_sorted
  Any-insert_sorted x [] a = a
  Any-insert_sorted x (y ∷ ys) a = elim (Bool-cases (less x y)) [
    | inl e ↦ rw e at a
    | inr e ↦ swap_any (Any-insert_sorted x ys) (rw e at a)
  ]

  Any-insert_all :
      (sorted xs : List A) → Any P (insert_all less sorted xs) → Any P sorted ⊎ Any P xs
  unfolding insert_all
  Any-insert_all sorted [] a = inl a
  Any-insert_all sorted (x ∷ xs) a = elim (Any-insert_all (insert_sorted less x sorted) xs a) [
    | inl s ↦ elim (Any-insert_sorted x sorted s) [ inl p ↦ inr (inl p) | inr q ↦ inl q ]
    | inr b ↦ inr (inr b)
  ]

  past_head :
      (y : A) (inserted ys : List A) {B : Type 0}
      → (B ⊎ Any P ys → Any P inserted)
      → B ⊎ (P y ⊎ Any P ys)
      → P y ⊎ Any P inserted
  past_head y inserted ys f (inl b) = inr (f (inl b))
  past_head y inserted ys f (inr (inl q)) = inl q
  past_head y inserted ys f (inr (inr r)) = inr (f (inr r))

  Any-insert_sorted_inv : (x : A) (ys : List A) → P x ⊎ Any P ys → Any P (insert_sorted less x ys)
  unfolding insert_sorted
  Any-insert_sorted_inv x [] a = a
  Any-insert_sorted_inv x (y ∷ ys) a = elim (Bool-cases (less x y)) [
    | inl e ↦ rw e a
    | inr e ↦ rw e (past_head y (insert_sorted less x ys) ys (Any-insert_sorted_inv x ys) a)
  ]

  Any-insert_all_inv :
      (sorted xs : List A) → Any P sorted ⊎ Any P xs → Any P (insert_all less sorted xs)
  unfolding insert_all
  Any-insert_all_inv sorted [] (inl s) = s
  Any-insert_all_inv sorted [] (inr n) = absurd n
  Any-insert_all_inv sorted (x ∷ xs) (inl s) =
      Any-insert_all_inv (insert_sorted less x sorted) xs
        (inl (Any-insert_sorted_inv x sorted (inr s)))
  Any-insert_all_inv sorted (x ∷ xs) (inr (inl p)) =
      Any-insert_all_inv (insert_sorted less x sorted) xs
        (inl (Any-insert_sorted_inv x sorted (inl p)))
  Any-insert_all_inv sorted (x ∷ xs) (inr (inr r)) =
      Any-insert_all_inv (insert_sorted less x sorted) xs (inr r)

  pub Any-sort_by_inv : (xs : List A) → Any P xs → Any P (sort_by less xs)
  unfolding sort_by
  Any-sort_by_inv xs a = Any-insert_all_inv [] xs (inr a)

  pub Any-sort_by : (xs : List A) → Any P (sort_by less xs) → Any P xs
  unfolding sort_by
  Any-sort_by xs a = elim (Any-insert_all [] xs a) [ inl n ↦ absurd n | inr b ↦ b ]

-- A sort by an order is in order.
module _ {A : Type 0} (less : A → A → Bool) (asym : (x y : A) → less x y ≡ true → less y x ≡ false)
    (cotrans : (x y z : A) → less y x ≡ false → less z y ≡ false → less z x ≡ false) where
  above-All :
      (x y : A) (ys : List A)
      → less y x ≡ false
      → All (λ z. less z y ≡ false) ys
      → All (λ z. less z x ≡ false) ys
  above-All x y [] n h = tt
  above-All x y (z ∷ ys) n h = (cotrans x y z n h.0, above-All x y ys n h.1)

  insert_sorted-IsOrdered :
      (x : A) (ys : List A) → IsOrdered less ys → IsOrdered less (insert_sorted less x ys)
  unfolding insert_sorted
  insert_sorted-IsOrdered x [] h = (tt, tt)
  insert_sorted-IsOrdered x (y ∷ ys) h = elim (Bool-cases (less x y)) [
    | inl e ↦ rw e ((asym x y e, above-All x y ys (asym x y e) h.0), h)
    | inr e ↦ rw e (
      All-insert_sorted less (λ z. less z y ≡ false) x ys e h.0,
      insert_sorted-IsOrdered x ys h.1,
    )
  ]

  insert_all-IsOrdered :
      (sorted xs : List A) → IsOrdered less sorted → IsOrdered less (insert_all less sorted xs)
  unfolding insert_all
  insert_all-IsOrdered sorted [] h = h
  insert_all-IsOrdered sorted (x ∷ xs) h =
      insert_all-IsOrdered (insert_sorted less x sorted) xs (insert_sorted-IsOrdered x sorted h)

  pub sort_by-IsOrdered : (xs : List A) → IsOrdered less (sort_by less xs)
  unfolding sort_by
  sort_by-IsOrdered xs = insert_all-IsOrdered [] xs tt
