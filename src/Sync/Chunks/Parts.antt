-- ===== src/Sync/Chunks/Parts.antt =====
-- The chunks of a completed run are the request, cut in parts.
use omacalendar.Base.{
  ℕ, zero, suc, ◌+◌, ◌≤◌, String, ◌≡◌, refl, sym, ap, ◌∙◌, inl, inr, true, List, [], ◌∷◌, ◌++◌,
  arith, Bool-cases, Option-cases, length, take, drop,
}
use omacalendar.Sync.Chunks.{
  Request, Position, Chunk, take_count, slice, Turn, is_completed, next_position, is_at_end,
  next_chunk, run,
}

take-drop : {A : Type 0} (n : ℕ) (xs : List A) → take n xs ++ drop n xs ≡ xs
take-drop zero xs = refl
take-drop (suc n) [] = refl
take-drop (suc n) (x ∷ xs) = ap (λ ys. x ∷ ys) (take-drop n xs)

drop_none : {A : Type 0} (n : ℕ) → drop {A = A} n [] ≡ []
drop_none zero = refl
drop_none (suc n) = refl

drop_add : {A : Type 0} (m n : ℕ) (xs : List A) → drop (m + n) xs ≡ drop n (drop m xs)
drop_add zero n xs = let e : 0 + n ≡ n = omega arith in ap (λ k. drop k xs) e
drop_add (suc m) n [] = drop_none (suc m + n) ∙ sym (drop_none n)
drop_add (suc m) n (x ∷ xs) =
    let e : suc m + n ≡ suc (m + n) = omega arith in ap (λ k. drop k (x ∷ xs)) e ∙ drop_add m n xs

drop_all : {A : Type 0} (n : ℕ) (xs : List A) → length xs ≤ n → drop n xs ≡ []
drop_all zero [] l = refl
drop_all zero (x ∷ xs) l = absurd (omega (arith, l))
drop_all (suc n) [] l = refl
drop_all (suc n) (x ∷ xs) l = drop_all n xs (omega (arith, l))

-- A slice and what comes after it.
slice_rest :
    {A : Type 0} (xs : List A) (i : ℕ)
    → slice xs i ++ drop (i + take_count (length xs) i) xs ≡ drop i xs
unfolding slice
slice_rest xs i =
    ap (λ ys. slice xs i ++ ys) (drop_add i (take_count (length xs) i) xs)
    ∙ take-drop (take_count (length xs) i) (drop i xs)

-- The slice that reaches the end.
slice_end :
    {A : Type 0} (xs : List A) (i : ℕ)
    → i + take_count (length xs) i ≡ length xs
    → slice xs i ++ [] ≡ drop i xs
slice_end xs i e =
    ap (λ ys. slice xs i ++ ys)
      (sym (drop_all (i + take_count (length xs) i) xs (omega (arith, e))))
    ∙ slice_rest xs i

-- The parts of all chunks, one after the other.
abbrev pub parts : {A C : Type 0} → (C → List A) → List C → List A
parts f [] = []
parts f (c ∷ cs) = f c ++ parts f cs

module _ {E R : Type 0} (resource_of_event : E → String) (canonical_key : R → String) where
  -- The chunks hold what the request holds from the position on.
  abbrev pub HoldsRest : Request E R → Position → List (Chunk E R) → Type 0
  HoldsRest q p cs =
      (parts (λ c. c.events) cs ≡ drop p.event_index q.events)
      × (parts (λ c. c.deleted) cs ≡ drop p.deleted_index q.deleted_remote_ids)
      × (parts (λ c. c.pruned) cs ≡ drop p.pruned_index q.pruned_remote_ids)

  last-HoldsRest :
      (q : Request E R) (p : Position)
      → is_at_end resource_of_event canonical_key q
          (next_position resource_of_event canonical_key q p)
        ≡ true
      → HoldsRest q p (next_chunk resource_of_event canonical_key q p ∷ [])
  unfolding next_chunk next_position is_at_end
  last-HoldsRest q p e = (
    slice_end q.events p.event_index (ground (arith, e)),
    slice_end q.deleted_remote_ids p.deleted_index (ground (arith, e)),
    slice_end q.pruned_remote_ids p.pruned_index (ground (arith, e)),
  )

  cons-HoldsRest :
      (q : Request E R) (p : Position) (cs : List (Chunk E R))
      → HoldsRest q (next_position resource_of_event canonical_key q p) cs
      → HoldsRest q p (next_chunk resource_of_event canonical_key q p ∷ cs)
  unfolding next_chunk next_position
  cons-HoldsRest q p cs h = (
    ap (λ ys. slice q.events p.event_index ++ ys) h.0 ∙ slice_rest q.events p.event_index,
    ap (λ ys. slice q.deleted_remote_ids p.deleted_index ++ ys) h.1
        ∙ slice_rest q.deleted_remote_ids p.deleted_index,
    ap (λ ys. slice q.pruned_remote_ids p.pruned_index ++ ys) h.2
        ∙ slice_rest q.pruned_remote_ids p.pruned_index,
  )

  -- A run that completes, from any position, has applied, chunk after chunk, the events, the deletions and
  -- the pruned ids that the request holds from there on: all of them, once each and in their order.
  pub run-HoldsRest :
      (q : Request E R) (p : Position) (ts : List Turn)
      → (run resource_of_event canonical_key q p ts).1 ≡ is_completed
      → HoldsRest q p (run resource_of_event canonical_key q p ts).0
  unfolding run next_chunk
  run-HoldsRest q p [] e = cc
  run-HoldsRest q p (t ∷ ts) e = elim (Bool-cases t.cancelled) [
    | inl c ↦ absurd (ground (arith, e, c))
    | inr c ↦ elim (Option-cases t.refusal) [
      | inr (m, f) ↦ absurd (ground (arith, e, c, f))
      | inl f ↦ elim (Bool-cases t.cancelled_by_listener) [
        | inl l ↦ absurd (ground (arith, e, c, f, l))
        | inr l ↦
            elim (Bool-cases (
              is_at_end resource_of_event canonical_key q
                (next_position resource_of_event canonical_key q p))) [
                  | inl d ↦ rw (HoldsRest, c, f, l, d) (last-HoldsRest q p d)
                  | inr d ↦
                      let e' : (run resource_of_event canonical_key q
                            (next_position resource_of_event canonical_key q p) ts).1
                          ≡ is_completed =
                        ground (arith, e, c, f, l, d) in
                      rw (HoldsRest, c, f, l, d)
                        (cons-HoldsRest q p
                          (run resource_of_event canonical_key q
                            (next_position resource_of_event canonical_key q p) ts).0
                          (run-HoldsRest q (next_position resource_of_event canonical_key q p) ts
                            e'))
                ]
      ]
    ]
  ]
