-- ===== src/Ipc/Framing/Pieces.antt =====
-- A stream of frames arrives as it was sent, however the socket cuts it into pieces.
use mathlib.Core.List.{append-nil, append_assoc}
use mathlib.Core.Path.{subst}
use omacalendar.Base.{
  ℕ, suc, ◌≤◌, ◌≡◌, refl, sym, ap, ◌∙◌, inl, inr, Bool, false, ◌||◌, List, [], ◌∷◌, ◌++◌, arith,
  ◌==◌, Bool-cases, length, any,
}
use omacalendar.Ipc.{newline_byte}
use omacalendar.Ipc.Framing.{receive, receive_all}
use omacalendar.Ipc.Framing.Lines.{
  in_line, split_lines, is_long, cut, receive-cut, split_lines-append,
}

abbrev pub joined : List (List ℕ) → List ℕ
joined [] = []
joined (piece ∷ pieces) = piece ++ joined pieces

-- No line of the buffer is too long, nor its rest.
abbrev pub Fits : ℕ → List (List ℕ) × List ℕ → Type 0
Fits maximum p = (any (is_long maximum) p.0 ≡ false) × length p.1 ≤ maximum

in_line_rest :
    (x : ℕ) (p : List (List ℕ) × List ℕ)
    → (x == newline_byte) ≡ false
    → split_lines p.1 ≡ ([], p.1)
    → split_lines (in_line x p).1 ≡ ([], (in_line x p).1)
in_line_rest x ([], rest) e h = rw (e, h) refl
in_line_rest x (line ∷ lines, rest) e h = h

pub split_lines_rest : (xs : List ℕ) → split_lines (split_lines xs).1 ≡ ([], (split_lines xs).1)
split_lines_rest [] = refl
split_lines_rest (x ∷ xs) = elim (Bool-cases (x == newline_byte)) [
  | inl e ↦ rw e (split_lines_rest xs)
  | inr e ↦ rw e (in_line_rest x (split_lines xs) e (split_lines_rest xs))
]

-- The first line, or the rest if there is none.
abbrev start : List (List ℕ) × List ℕ → List ℕ
start ([], rest) = rest
start (line ∷ lines, rest) = line

length-start_in_line :
    (x : ℕ) (p : List (List ℕ) × List ℕ) → length (start (in_line x p)) ≡ suc (length (start p))
length-start_in_line x ([], rest) = refl
length-start_in_line x (line ∷ lines, rest) = refl

Fits-start :
    (maximum : ℕ) (p : List (List ℕ) × List ℕ) → Fits maximum p → length (start p) ≤ maximum
Fits-start maximum ([], rest) f = f.1
Fits-start maximum (line ∷ lines, rest) f = ground (arith, f.0)

no_line_tail :
    (x : ℕ) (p : List (List ℕ) × List ℕ) (xs : List ℕ) → in_line x p ≡ ([], x ∷ xs) → p ≡ ([], xs)
no_line_tail x ([], rest) xs e = cc
no_line_tail x (line ∷ lines, rest) xs e = cc

length-start :
    (xs ys : List ℕ)
    → split_lines xs ≡ ([], xs)
    → length xs ≤ length (start (split_lines (xs ++ ys)))
length-start [] ys h = omega arith
length-start (x ∷ xs) ys h = elim (Bool-cases (x == newline_byte)) [
  | inl e ↦ cc (rw e at h)
  | inr e ↦
      rw (e, length-start_in_line x (split_lines (xs ++ ys)))
        (omega (arith, length-start xs ys (no_line_tail x (split_lines xs) xs (rw e at h))))
]

any-append :
    {A : Type 0} (test : A → Bool) (xs ys : List A)
    → any test (xs ++ ys) ≡ (any test xs || any test ys)
any-append test [] ys = refl
any-append test (x ∷ xs) ys = ground (arith, any-append test xs ys)

pub cut-Fits :
    (maximum : ℕ) (p : List (List ℕ) × List ℕ)
    → Fits maximum p
    → cut maximum [] p ≡ record { frames = p.0; rest = p.1; oversized = false }
cut-Fits maximum (lines, rest) f = ground (arith, f.0, f.1)

-- The next piece: what is read now, and that what is read later fits as well.
pub receive_piece :
    (maximum : ℕ) (b piece : List ℕ) (pieces : List (List ℕ))
    → Fits maximum (split_lines (b ++ (piece ++ joined pieces)))
    → (receive maximum b piece ≡ record {
      frames = (split_lines (b ++ piece)).0;
      rest = (split_lines (b ++ piece)).1;
      oversized = false;
    })
      × (Fits maximum (split_lines ((split_lines (b ++ piece)).1 ++ joined pieces))
          × (split_lines (b ++ (piece ++ joined pieces)) ≡ (
            (split_lines (b ++ piece)).0
                ++ (split_lines ((split_lines (b ++ piece)).1 ++ joined pieces)).0,
            (split_lines ((split_lines (b ++ piece)).1 ++ joined pieces)).1,
          )))
receive_piece maximum b piece pieces f =
    let p = split_lines (b ++ piece) in
    let q = split_lines (p.1 ++ joined pieces) in
    let whole : split_lines (b ++ (piece ++ joined pieces)) ≡ (p.0 ++ q.0, q.1) =
      ap split_lines (sym (append_assoc b piece (joined pieces)))
      ∙ split_lines-append (b ++ piece) (joined pieces) in
    let fits : Fits maximum (p.0 ++ q.0, q.1) = subst (Fits maximum) whole f in
    let lines : (any (is_long maximum) p.0 || any (is_long maximum) q.0) ≡ false =
      sym (any-append (is_long maximum) p.0 q.0) ∙ fits.0 in
    let q_fits : Fits maximum q = (ground arith, fits.1) in
    let rest_fits : length p.1 ≤ maximum = omega (
      arith,
      length-start p.1 (joined pieces) (split_lines_rest (b ++ piece)),
      Fits-start maximum q q_fits,
    ) in
    (receive-cut maximum b piece ∙ cut-Fits maximum p (ground arith, rest_fits), (q_fits, whole))

-- However the bytes are cut into pieces, the reader takes the lines of the whole.
pub receive_all-append :
    (maximum : ℕ) (buffer : List ℕ) (pieces : List (List ℕ))
    → split_lines buffer ≡ ([], buffer)
    → Fits maximum (split_lines (buffer ++ joined pieces))
    → receive_all maximum buffer pieces ≡ record {
      frames = (split_lines (buffer ++ joined pieces)).0;
      rest = (split_lines (buffer ++ joined pieces)).1;
      oversized = false;
    }
unfolding receive_all
receive_all-append maximum buffer [] b f = rw (append-nil buffer, b) refl
receive_all-append maximum buffer (piece ∷ pieces) b f =
    let next = receive_piece maximum buffer piece pieces f in
    rw
      (
        next.0,
        receive_all-append maximum (split_lines (buffer ++ piece)).1 pieces
            (split_lines_rest (buffer ++ piece)) next.1.0,
        next.1.1,
      )
      refl
