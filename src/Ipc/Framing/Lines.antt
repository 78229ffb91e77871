-- ===== src/Ipc/Framing/Lines.antt =====
-- The frames that a read takes are the lines of the buffer.
use mathlib.Core.List.{append-nil, append_assoc}
use omacalendar.Base.{
  ℕ, zero, suc, ◌≤◌, ◌<◌, ◌≡◌, refl, inl, inr, Bool, false, ◌||◌, none, some, List, [], ◌∷◌, ◌++◌,
  arith, ltb, ◌==◌, if◌then◌else◌, Bool-cases, length, take, drop, any,
}
use omacalendar.Ipc.{newline_byte}
use omacalendar.Ipc.Framing.{index_of, Extraction, too_long, extract, receive}

-- The lines that a newline ends, and what follows the last of them.
abbrev pub in_line : ℕ → List (List ℕ) × List ℕ → List (List ℕ) × List ℕ
in_line x ([], rest) = ([], x ∷ rest)
in_line x (line ∷ lines, rest) = ((x ∷ line) ∷ lines, rest)

abbrev pub split_lines : List ℕ → List (List ℕ) × List ℕ
split_lines [] = ([], [])
split_lines (x ∷ xs) =
    let later = split_lines xs in
    if x == newline_byte then ([] ∷ later.0, later.1) else in_line x later

-- What `index_of` says of the lines: none if there is none, and where the first ends.
pub data FirstLine (xs : List ℕ) : Type 0 where
  no_line : index_of newline_byte xs ≡ none → split_lines xs ≡ ([], xs) → FirstLine xs
  a_line :
      (n : ℕ)
      → index_of newline_byte xs ≡ some n
      → length (drop (suc n) xs) < length xs
      → length (take n xs) ≡ n
      → split_lines xs
        ≡ (take n xs ∷ (split_lines (drop (suc n) xs)).0, (split_lines (drop (suc n) xs)).1)
      → FirstLine xs

pub first_line : (xs : List ℕ) → FirstLine xs
unfolding index_of
first_line [] = no_line refl refl
first_line (x ∷ xs) = elim (Bool-cases (x == newline_byte)) [
  | inl e ↦ a_line 0 (rw e refl) (omega arith) refl (rw e refl)
  | inr e ↦ elim (first_line xs) [
    | no_line i s ↦ no_line (rw (e, i) refl) (rw (e, s) refl)
    | a_line n i l k s ↦
        a_line (suc n) (rw (e, i) refl) (omega (arith, l)) (omega (arith, k)) (rw (e, s) refl)
  ]
]

abbrev pub is_long : ℕ → List ℕ → Bool
is_long maximum line = ltb maximum (length line)

-- What a buffer gives by its lines.
abbrev pub cut : ℕ → List (List ℕ) → List (List ℕ) × List ℕ → Extraction
cut maximum frames (lines, rest) =
    if any (is_long maximum) lines || is_long maximum rest
    then too_long
    else record { frames = frames ++ lines; rest = rest; oversized = false }

cut-cons :
    (maximum n : ℕ) (frames : List (List ℕ)) (line : List ℕ) (p : List (List ℕ) × List ℕ)
    → length line ≡ n
    → (if ltb maximum n then too_long else cut maximum (frames ++ line ∷ []) p)
      ≡ cut maximum frames (line ∷ p.0, p.1)
cut-cons maximum n frames line (lines, rest) k = elim (Bool-cases (ltb maximum n)) [
  | inl e ↦ rw (k, e) refl
  | inr e ↦ rw (k, e, append_assoc frames (line ∷ []) lines) refl
]

extract-cut :
    (maximum fuel : ℕ) (frames : List (List ℕ)) (xs : List ℕ)
    → length xs ≤ fuel
    → extract maximum fuel frames xs ≡ cut maximum frames (split_lines xs)
unfolding extract
extract-cut maximum zero frames [] h = rw (append-nil frames) refl
extract-cut maximum zero frames (x ∷ xs) h = absurd (omega (arith, h))
extract-cut maximum (suc fuel) frames xs h = elim (first_line xs) [
  | no_line i s ↦ rw (extract, i, s, append-nil frames) refl
  | a_line n i l k s ↦
      rw (extract, i)
        (rw
          (extract-cut maximum fuel (frames ++ take n xs ∷ []) (drop (suc n) xs)
            (omega (arith, l, h)))
          (rw s (cut-cons maximum n frames (take n xs) (split_lines (drop (suc n) xs)) k)))
]

-- A read takes exactly the lines of what is left of the last and the new bytes, if none of them and
-- no rest is longer than the limit, and nothing otherwise.
pub receive-cut :
    (maximum : ℕ) (buffer bytes : List ℕ)
    → receive maximum buffer bytes ≡ cut maximum [] (split_lines (buffer ++ bytes))
unfolding receive
receive-cut maximum buffer bytes =
    extract-cut maximum (length (buffer ++ bytes)) [] (buffer ++ bytes) (omega arith)

in_line-append :
    (x : ℕ) (p : List (List ℕ) × List ℕ) (ys : List ℕ)
    → (x == newline_byte) ≡ false
    → in_line x (p.0 ++ (split_lines (p.1 ++ ys)).0, (split_lines (p.1 ++ ys)).1) ≡ (
      (in_line x p).0 ++ (split_lines ((in_line x p).1 ++ ys)).0,
      (split_lines ((in_line x p).1 ++ ys)).1,
    )
in_line-append x ([], rest) ys e = rw e refl
in_line-append x (line ∷ lines, rest) ys e = refl

pub split_lines-append :
    (xs ys : List ℕ)
    → split_lines (xs ++ ys) ≡ (
      (split_lines xs).0 ++ (split_lines ((split_lines xs).1 ++ ys)).0,
      (split_lines ((split_lines xs).1 ++ ys)).1,
    )
split_lines-append [] ys = refl
split_lines-append (x ∷ xs) ys = elim (Bool-cases (x == newline_byte)) [
  | inl e ↦ rw (e, split_lines-append xs ys) refl
  | inr e ↦ rw (e, split_lines-append xs ys) (in_line-append x (split_lines xs) ys e)
]
