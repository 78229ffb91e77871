-- ===== src/Base/Members.antt =====
-- Lemmas on `All` and `Any`: how they meet, and what the selections of a table keep of them.
use Prim.Native.Nat.{ℕ, zero, suc}
use mathlib.Core.Path.{◌≡◌}
use mathlib.Core.Logic.{◌⊎◌, inl, inr}
use mathlib.Core.Bool.{Bool, true, false}
use mathlib.Core.List.{List, [], ◌∷◌, ◌++◌}
use native.Mathlib.Omega.{arith}
use omacalendar.Base.Tests.{Bool-cases}
use omacalendar.Base.Lists.{take, All, Any}
use omacalendar.Base.Table.{select, delete_where, any}

pub All-Any :
    {A : Type 0} (P : A → Type 0) (Q : A → Type 0) (xs : List A)
    → All P xs
    → Any Q xs
    → (x : A) × P x × Q x
All-Any P Q [] h a = absurd a
All-Any P Q (x ∷ xs) h (inl q) = (x, h.0, q)
All-Any P Q (x ∷ xs) h (inr a) = All-Any P Q xs h.1 a

pub Any-mono :
    {A : Type 0} (P Q : A → Type 0) (R : A → Type 0)
    → ((x : A) → R x → P x → Q x)
    → (xs : List A) → All R xs
    → Any P xs
    → Any Q xs
Any-mono P Q R f [] h a = a
Any-mono P Q R f (x ∷ xs) h (inl p) = inl (f x h.0 p)
Any-mono P Q R f (x ∷ xs) h (inr a) = inr (Any-mono P Q R f xs h.1 a)

pub any→Any :
    {A : Type 0} (test : A → Bool) (xs : List A) → any test xs ≡ true → Any (λ x. test x ≡ true) xs
any→Any test [] e = cc
any→Any test (x ∷ xs) e = elim (Bool-cases (test x)) [
  | inl h ↦ inl h
  | inr h ↦ inr (any→Any test xs (rw h at e))
]

pub Any→any :
    {A : Type 0} (test : A → Bool) (xs : List A) → Any (λ x. test x ≡ true) xs → any test xs ≡ true
Any→any test [] a = absurd a
Any→any test (x ∷ xs) (inl h) = ground arith
Any→any test (x ∷ xs) (inr a) = ground (arith, Any→any test xs a)

pub any-false :
    {A : Type 0} (test : A → Bool) (xs : List A)
    → any test xs ≡ false
    → All (λ x. test x ≡ false) xs
any-false test [] e = tt
any-false test (x ∷ xs) e = elim (Bool-cases (test x)) [
  | inl h ↦ cc (rw h at e)
  | inr h ↦ (h, any-false test xs (rw h at e))
]

pub All-zip :
    {A : Type 0} (P Q : A → Type 0) (xs : List A) → All P xs → All Q xs → All (λ x. P x × Q x) xs
All-zip P Q [] p q = tt
All-zip P Q (x ∷ xs) p q = ((p.0, q.0), All-zip P Q xs p.1 q.1)

pub Any-select :
    {A : Type 0} (P : A → Type 0) (test : A → Bool) (xs : List A)
    → Any P (select test xs)
    → Any (λ x. P x × (test x ≡ true)) xs
Any-select P test [] a = a
Any-select P test (x ∷ xs) a = elim (Bool-cases (test x)) [
  | inl e ↦
      let b : P x ⊎ Any P (select test xs) = rw e at a in
      elim b [ inl p ↦ inl (p, e) | inr r ↦ inr (Any-select P test xs r) ]
  | inr e ↦ inr (Any-select P test xs (rw e at a))
]

pub All-select_inv :
    {A : Type 0} (P : A → Type 0) (test : A → Bool) (xs : List A)
    → All P (select test xs)
    → All (λ x. test x ≡ true → P x) xs
All-select_inv P test [] h = tt
All-select_inv P test (x ∷ xs) h = elim (Bool-cases (test x)) [
  | inl e ↦
      let b : P x × All P (select test xs) = rw e at h in ((λ _. b.0), All-select_inv P test xs b.1)
  | inr e ↦ ((λ t. cc), All-select_inv P test xs (rw e at h))
]

pub Any-delete_where :
    {A : Type 0} (P : A → Type 0) (test : A → Bool) (xs : List A)
    → Any P xs
    → Any P (delete_where test xs) ⊎ Any (λ x. P x × (test x ≡ true)) xs
Any-delete_where P test [] a = absurd a
Any-delete_where P test (x ∷ xs) (inl p) = elim (Bool-cases (test x)) [
  | inl e ↦ inr (inl (p, e))
  | inr e ↦ inl (rw e (inl p))
]
Any-delete_where P test (x ∷ xs) (inr a) = elim (Any-delete_where P test xs a) [
  | inl k ↦ inl (elim (Bool-cases (test x)) [ inl e ↦ rw e k | inr e ↦ rw e (inr k) ])
  | inr d ↦ inr (inr d)
]

pub Any-delete_where_inv :
    {A : Type 0} (P : A → Type 0) (test : A → Bool) (xs : List A)
    → Any P (delete_where test xs)
    → Any P xs
Any-delete_where_inv P test [] a = a
Any-delete_where_inv P test (x ∷ xs) a = elim (Bool-cases (test x)) [
  | inl e ↦ inr (Any-delete_where_inv P test xs (rw e at a))
  | inr e ↦
      let b : P x ⊎ Any P (delete_where test xs) = rw e at a in
      elim b [ inl p ↦ inl p | inr r ↦ inr (Any-delete_where_inv P test xs r) ]
]

pub Any-snoc :
    {A : Type 0} (P : A → Type 0) (xs : List A) (y : A) → Any P (xs ++ y ∷ []) → Any P xs ⊎ P y
Any-snoc P [] y (inl p) = inr p
Any-snoc P [] y (inr a) = elim a [ ]
Any-snoc P (x ∷ xs) y (inl p) = inl (inl p)
Any-snoc P (x ∷ xs) y (inr a) = elim (Any-snoc P xs y a) [ inl b ↦ inl (inr b) | inr p ↦ inr p ]

pub Any-snoc_left :
    {A : Type 0} (P : A → Type 0) (xs : List A) (y : A) → Any P xs → Any P (xs ++ y ∷ [])
Any-snoc_left P [] y a = absurd a
Any-snoc_left P (x ∷ xs) y (inl p) = inl p
Any-snoc_left P (x ∷ xs) y (inr a) = inr (Any-snoc_left P xs y a)

pub Any-snoc_right :
    {A : Type 0} (P : A → Type 0) (xs : List A) (y : A) → P y → Any P (xs ++ y ∷ [])
Any-snoc_right P [] y p = inl p
Any-snoc_right P (x ∷ xs) y p = inr (Any-snoc_right P xs y p)

pub All-map :
    {A : Type 0} (P Q : A → Type 0) → ((x : A) → P x → Q x) → (xs : List A) → All P xs → All Q xs
All-map P Q f [] h = tt
All-map P Q f (x ∷ xs) h = (f x h.0, All-map P Q f xs h.1)

pub All-always : {A : Type 0} (P : A → Type 0) → ((x : A) → P x) → (xs : List A) → All P xs
All-always P f [] = tt
All-always P f (x ∷ xs) = (f x, All-always P f xs)

pub All-take : {A : Type 0} (P : A → Type 0) (n : ℕ) (xs : List A) → All P xs → All P (take n xs)
All-take P zero xs h = tt
All-take P (suc n) [] h = tt
All-take P (suc n) (x ∷ xs) h = (h.0, All-take P n xs h.1)
