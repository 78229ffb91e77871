-- ===== src/Sync/Chunks/Turns.antt =====
-- How a run of turns ends, and what each of its chunks is.
use omacalendar.Base.{
  ℕ, ◌+◌, ◌-◌, ◌≤◌, ◌<◌, String, ◌≡◌, refl, inl, inr, true, false, none, List, [], ◌∷◌, arith,
  Bool-cases, Option-cases, length, drop, length-take, All,
}
use omacalendar.Sync.Chunks.{
  Request, Position, Chunk, take_count, slice, Turn, is_completed, next_position, is_at_end,
  next_chunk, run,
}

-- At most `changes_per_turn` of each kind of change.
abbrev pub IsSmall : {E R : Type 0} → Chunk E R → Type 0
IsSmall c = (length c.events ≤ 32) × (length c.deleted ≤ 32) × (length c.pruned ≤ 32)

-- The last chunk is final, and no other is.
abbrev pub IsFinishedOnce : {E R : Type 0} → List (Chunk E R) → Type 0
IsFinishedOnce [] = ⊥
IsFinishedOnce (c ∷ []) = c.is_final ≡ true
IsFinishedOnce (c ∷ d ∷ cs) = (c.is_final ≡ false) × IsFinishedOnce (d ∷ cs)

cons-IsFinishedOnce :
    {E R : Type 0} (c : Chunk E R) (cs : List (Chunk E R))
    → c.is_final ≡ false
    → IsFinishedOnce cs
    → IsFinishedOnce (c ∷ cs)
cons-IsFinishedOnce c [] f h = absurd h
cons-IsFinishedOnce c (d ∷ cs) f h = (f, h)

length-slice : {A : Type 0} (xs : List A) (i : ℕ) → length (slice xs i) ≤ 32
unfolding slice
length-slice xs i = omega (arith, length-take (take_count (length xs) i) (drop i xs))

-- Nobody cancels, and nothing is refused.
abbrev pub IsCalm : Turn → Type 0
IsCalm t = (t.cancelled ≡ false) × (t.refusal ≡ none) × (t.cancelled_by_listener ≡ false)

module _ {E R : Type 0} (resource_of_event : E → String) (canonical_key : R → String) where
  chunk-IsSmall :
      (q : Request E R) (p : Position) → IsSmall (next_chunk resource_of_event canonical_key q p)
  unfolding next_chunk
  chunk-IsSmall q p = (
    length-slice q.events p.event_index,
    length-slice q.deleted_remote_ids p.deleted_index,
    length-slice q.pruned_remote_ids p.pruned_index,
  )

  -- In any run, however it ends, a chunk has at most 32 events, 32 deletions and 32 pruned ids; and in one
  -- that completes the last chunk, and no other, is the final one, that publishes the sync token.
  pub run-IsFinishedOnce :
      (q : Request E R) (p : Position) (ts : List Turn)
      → let r = run resource_of_event canonical_key q p ts in
        All IsSmall r.0 × (r.1 ≡ is_completed → IsFinishedOnce r.0)
  unfolding run next_chunk
  run-IsFinishedOnce q p [] = (tt, (λ e. cc))
  run-IsFinishedOnce q p (t ∷ ts) =
      let small = chunk-IsSmall q p in
      let (rest, once) =
        run-IsFinishedOnce q (next_position resource_of_event canonical_key q p) ts in
      elim (Bool-cases t.cancelled) [
        | inl c ↦ rw c (tt, (λ e. cc))
        | inr c ↦ elim (Option-cases t.refusal) [
          | inr (m, f) ↦ rw (c, f) (tt, (λ e. cc))
          | inl f ↦ elim (Bool-cases t.cancelled_by_listener) [
            | inl l ↦ rw (c, f, l) ((small, tt), (λ e. cc))
            | inr l ↦
                elim (Bool-cases (
                  is_at_end resource_of_event canonical_key q
                    (next_position resource_of_event canonical_key q p))) [
                      | inl d ↦ rw (c, f, l, d) ((small, tt), (λ e. refl))
                      | inr d ↦
                          rw (c, f, l, d)
                            (
                              (small, rest),
                              (λ e.
                                  cons-IsFinishedOnce
                                    (record (next_chunk resource_of_event canonical_key q p) {
                                      is_final = false;
                                    })
                                    (run resource_of_event canonical_key q
                                      (next_position resource_of_event canonical_key q p) ts).0
                                    refl (once e)),
                            )
                    ]
          ]
        ]
      ]

  -- The changes that are left.
  abbrev pub left : Request E R → Position → ℕ
  left q p =
      (length q.events - p.event_index)
      + (length q.deleted_remote_ids - p.deleted_index)
      + (length q.pruned_remote_ids - p.pruned_index)
      + (length q.resources - p.resource_index)

  abbrev pub IsWithin : Request E R → Position → Type 0
  IsWithin q p =
      (p.event_index ≤ length q.events)
      × (p.deleted_index ≤ length q.deleted_remote_ids)
      × (p.pruned_index ≤ length q.pruned_remote_ids)
      × (p.resource_index ≤ length q.resources)

  next-IsWithin :
      (q : Request E R) (p : Position)
      → IsWithin q p
      → IsWithin q (next_position resource_of_event canonical_key q p)
  unfolding next_position
  next-IsWithin q p w = (omega (arith, w), omega (arith, w), omega (arith, w), omega (arith, w))

  left-next :
      (q : Request E R) (p : Position)
      → IsWithin q p
      → is_at_end resource_of_event canonical_key q
          (next_position resource_of_event canonical_key q p)
        ≡ false
      → left q (next_position resource_of_event canonical_key q p) < left q p
  unfolding next_position is_at_end
  left-next q p w e = ground (arith, w, e)

  -- A run whose turns are not disturbed completes when it has more turns than changes are left.
  pub run-IsCompleted :
      (q : Request E R) (p : Position) (ts : List Turn)
      → IsWithin q p
      → left q p < length ts
      → All IsCalm ts
      → (run resource_of_event canonical_key q p ts).1 ≡ is_completed
  unfolding run next_chunk
  run-IsCompleted q p [] w l h = absurd (omega (arith, l))
  run-IsCompleted q p (t ∷ ts) w l h =
      let p' = next_position resource_of_event canonical_key q p in
      elim (Bool-cases (is_at_end resource_of_event canonical_key q p')) [
        | inl d ↦ rw (h.0.0, h.0.1, h.0.2, d) refl
        | inr d ↦
            rw (h.0.0, h.0.1, h.0.2, d)
              (run-IsCompleted q p' ts (next-IsWithin q p w) (omega (arith, left-next q p w d, l))
                h.1)
      ]
