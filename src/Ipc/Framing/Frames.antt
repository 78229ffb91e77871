-- ===== src/Ipc/Framing/Frames.antt =====
-- Frames that were written come out of the reader: the server's and the client's.
use mathlib.Core.List.{append-nil, append_assoc}
use mathlib.Core.Path.{subst}
use omacalendar.Base.{
  ℕ, zero, suc, ◌≤◌, ◌≡◌, refl, sym, ap, ◌∙◌, inl, inr, false, List, [], ◌∷◌, ◌++◌, map, arith, ltb,
  ◌==◌, if◌then◌else◌, Bool-cases, length, take, drop, All, any,
}
use omacalendar.Ipc.{JsonObject, newline_byte, frame}
use omacalendar.Ipc.Framing.{index_of, too_long, receive, receive_all, take_lines, client_receive}
use omacalendar.Ipc.Framing.Lines.{split_lines, no_line, a_line, first_line, is_long, receive-cut}
use omacalendar.Ipc.Framing.Pieces.{joined, Fits, cut-Fits, receive_all-append}

split_lines-line :
    (line xs : List ℕ)
    → any (λ x. x == newline_byte) line ≡ false
    → split_lines (line ++ newline_byte ∷ xs) ≡ (line ∷ (split_lines xs).0, (split_lines xs).1)
split_lines-line [] xs h = refl
split_lines-line (x ∷ line) xs h = elim (Bool-cases (x == newline_byte)) [
  | inl e ↦ cc (rw e at h)
  | inr e ↦ rw (e, split_lines-line line xs (rw e at h)) refl
]

-- The text of the object is one line, within the limit.
abbrev pub IsFramable : (JsonObject → List ℕ) → ℕ → JsonObject → Type 0
IsFramable to_json maximum o =
    (any (λ x. x == newline_byte) (to_json o) ≡ false) × length (to_json o) ≤ maximum

module _ (to_json : JsonObject → List ℕ) (maximum : ℕ) where
  abbrev pub stream : List JsonObject → List ℕ
  stream os = joined (map (frame to_json) os)

  pub split_lines-stream :
      (os : List JsonObject)
      → All (IsFramable to_json maximum) os
      → split_lines (stream os) ≡ (map to_json os, [])
  split_lines-stream [] h = refl
  split_lines-stream (o ∷ os) h =
      rw (append_assoc (to_json o) (newline_byte ∷ []) (stream os))
        (rw (split_lines-line (to_json o) (stream os) h.0.0, split_lines-stream os h.1) refl)

  pub any-long_framable :
      (os : List JsonObject)
      → All (IsFramable to_json maximum) os
      → any (is_long maximum) (map to_json os) ≡ false
  any-long_framable [] h = refl
  any-long_framable (o ∷ os) h = ground (arith, h.0.1, any-long_framable os h.1)

  -- Objects whose texts are lines within the limit, each written as a frame, are read as the same
  -- texts in the same order, with nothing left over, however the bytes are cut into pieces.
  pub receive_all-frame :
      (os : List JsonObject) (pieces : List (List ℕ))
      → All (IsFramable to_json maximum) os
      → joined pieces ≡ joined (map (frame to_json) os)
      → receive_all maximum [] pieces
        ≡ record { frames = map to_json os; rest = []; oversized = false }
  receive_all-frame os pieces h e =
      let s : split_lines (joined pieces) ≡ (map to_json os, []) =
        ap split_lines e ∙ split_lines-stream os h in
      subst
        (λ p.
          receive_all maximum [] pieces ≡ record { frames = p.0; rest = p.1; oversized = false })
        s
        (receive_all-append maximum [] pieces refl
          (subst (Fits maximum) (sym s) (any-long_framable os h, omega arith)))

take_lines-cut :
    (fuel : ℕ) (frames : List (List ℕ)) (xs : List ℕ)
    → length xs ≤ fuel
    → take_lines fuel frames xs ≡ record {
      frames = frames ++ (split_lines xs).0;
      rest = (split_lines xs).1;
      oversized = false;
    }
unfolding index_of
take_lines-cut zero frames [] h = rw (append-nil frames) refl
take_lines-cut zero frames (x ∷ xs) h = absurd (omega (arith, h))
take_lines-cut (suc fuel) frames xs h = elim (first_line xs) [
  | no_line i s ↦ rw (take_lines, i, s, append-nil frames) refl
  | a_line n i l k s ↦
      rw (take_lines, i)
        (rw (take_lines-cut fuel (frames ++ take n xs ∷ []) (drop (suc n) xs) (omega (arith, l, h)))
          (rw s (rw (append_assoc frames (take n xs ∷ []) (split_lines (drop (suc n) xs)).0) refl)))
]

-- Objects whose texts are lines within the limit and that arrive in one piece: the server reads
-- them all, and the client does if they are within the limit together; otherwise it reads none and
-- reports a frame that is too long.
pub client_receive-frame :
    (to_json : JsonObject → List ℕ) (maximum : ℕ) (os : List JsonObject)
    → All (IsFramable to_json maximum) os
    → (receive maximum [] (joined (map (frame to_json) os))
        ≡ record { frames = map to_json os; rest = []; oversized = false })
      × (client_receive maximum [] (joined (map (frame to_json) os)) ≡ (
          if ltb maximum (length (joined (map (frame to_json) os)))
          then too_long
          else record { frames = map to_json os; rest = []; oversized = false }))
unfolding client_receive
client_receive-frame to_json maximum os h =
    let s = split_lines-stream to_json maximum os h in
    let l = any-long_framable to_json maximum os h in
    let xs = stream to_json maximum os in
    (
      receive-cut maximum [] xs ∙ rw s (cut-Fits maximum (map to_json os, []) (l, omega arith)),
      ap (λ e. if ltb maximum (length xs) then too_long else e)
          (take_lines-cut (length xs) [] xs (omega arith) ∙ rw s refl),
    )
