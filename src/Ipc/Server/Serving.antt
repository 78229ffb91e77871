-- ===== src/Ipc/Server/Serving.antt =====
-- The server of bytes does what a server of requests would.
use mathlib.Core.List.{append-nil}
use mathlib.Core.Path.{subst}
use mathlib.Core.Path.{subst}
use omacalendar.Ipc.Framing.Frames.{IsFramable, split_lines-stream, any-long_framable}
use omacalendar.Base.{
  ℕ, ◌≡◌, refl, sym, ap, ◌∙◌, inl, inr, false, Option, none, some, List, [], ◌∷◌, ◌++◌, map, arith,
  Bool-cases, All, All-map,
}
use omacalendar.Ipc.{JsonValue, object, JsonObject, frame}
use omacalendar.Ipc.Router.{Handlers, Routed, route}
use omacalendar.Ipc.Framing.Lines.{split_lines}
use omacalendar.Ipc.Framing.Pieces.{joined, Fits, split_lines_rest, receive_piece}
use omacalendar.Ipc.Framing.{receive}
use omacalendar.Ipc.Server.{
  Client, Session, QtCode, is_blank, subscribes, respond, handle_document, handle_frame,
  handle_frames, read_client, read, read_all,
}

-- The text of the request is a line within the limit, parses as the request, and is not blank.
abbrev pub IsRequestText : QtCode → ℕ → JsonObject → Type 0
IsRequestText qt maximum o =
    IsFramable qt.to_json maximum o
    × (qt.from_json (qt.to_json o) ≡ some (object o))
    × (is_blank (qt.to_json o) ≡ false)

abbrev with_buffer : List ℕ → Option Client → Option Client
with_buffer b none = none
with_buffer b (some client) = some (record client { buffer = b })

abbrev pub buffer_of : Option Client → List ℕ
buffer_of none = []
buffer_of (some client) = client.buffer

with_buffer_twice :
    (r b : List ℕ) (c : Option Client) → with_buffer r (with_buffer b c) ≡ with_buffer r c
with_buffer_twice r b none = refl
with_buffer_twice r b (some client) = refl

with_buffer-buffer_of : (b : List ℕ) (c : Option Client) → buffer_of c ≡ b → with_buffer b c ≡ c
with_buffer-buffer_of b none e = refl
with_buffer-buffer_of b (some client) e = ap (λ x. some (record client { buffer = x })) (sym e)

module _ {World : Type 0} where
  abbrev set_buffer : List ℕ → Session World → Session World
  set_buffer b s = record s { client = with_buffer b s.client }

  -- What the requests do, one after the other, to a client that is attached.
  abbrev pub serve_one :
      QtCode → ℕ → Handlers World → Option Client → JsonObject → Session World → Session World
  serve_one qt maximum handlers none request s = s
  serve_one qt maximum handlers (some client) request s =
      respond qt maximum handlers request client (route handlers request s.world) s

  unfoldable pub serve :
      QtCode → ℕ → Handlers World → List JsonObject → Session World → Session World
  serve qt maximum handlers [] s = s
  serve qt maximum handlers (o ∷ os) s =
      serve qt maximum handlers os (serve_one qt maximum handlers s.client o s)

module _ {World : Type 0} (qt : QtCode) (maximum : ℕ) (handlers : Handlers World) where
  respond_buffer :
      (b : List ℕ) (request : JsonObject) (client : Client) (r : Routed World) (s : Session World)
      → respond qt maximum handlers request (record client { buffer = b }) r (set_buffer b s)
        ≡ set_buffer b (respond qt maximum handlers request client r s)
  unfolding respond
  respond_buffer b request client r s = elim (Bool-cases r.is_attached) [
    | inl e ↦ elim (Bool-cases (subscribes request r.response)) [
      | inl f ↦ rw (e, f) refl
      | inr f ↦ rw (e, f) refl
    ]
    | inr e ↦ rw e refl
  ]

  handle_document_buffer :
      (b : List ℕ) (document : Option JsonValue) (client : Client) (s : Session World)
      → handle_document qt maximum handlers document (record client { buffer = b }) (set_buffer b s)
        ≡ set_buffer b (handle_document qt maximum handlers document client s)
  unfolding handle_document
  handle_document_buffer b (some (object request)) client s =
      respond_buffer b request client (route handlers request s.world) s
  handle_document_buffer b _ client s = refl

  handle_frame_buffer :
      (b raw : List ℕ) (client : Option Client) (s : Session World)
      → handle_frame qt maximum handlers (with_buffer b client) raw (set_buffer b s)
        ≡ set_buffer b (handle_frame qt maximum handlers client raw s)
  unfolding handle_frame
  handle_frame_buffer b raw none s = refl
  handle_frame_buffer b raw (some client) s = elim (Bool-cases (is_blank raw)) [
    | inl e ↦ rw e refl
    | inr e ↦ rw e (handle_document_buffer b (qt.from_json raw) client s)
  ]

  handle_frames_buffer :
      (b : List ℕ) (frames : List (List ℕ)) (s : Session World)
      → handle_frames qt maximum handlers frames (set_buffer b s)
        ≡ set_buffer b (handle_frames qt maximum handlers frames s)
  unfolding handle_frames
  handle_frames_buffer b [] s = refl
  handle_frames_buffer b (raw ∷ frames) s =
      rw (handle_frame_buffer b raw s.client s)
        (handle_frames_buffer b frames (handle_frame qt maximum handlers s.client raw s))

  handle_frames-append :
      (f g : List (List ℕ)) (s : Session World)
      → handle_frames qt maximum handlers (f ++ g) s
        ≡ handle_frames qt maximum handlers g (handle_frames qt maximum handlers f s)
  unfolding handle_frames
  handle_frames-append [] g s = refl
  handle_frames-append (raw ∷ f) g s =
      handle_frames-append f g (handle_frame qt maximum handlers s.client raw s)

  detached_lem :
      (f : List (List ℕ)) (s : Session World)
      → s.client ≡ none
      → handle_frames qt maximum handlers f s ≡ s
  unfolding handle_frames handle_frame
  detached_lem [] s e = refl
  detached_lem (raw ∷ f) s e =
      ap (λ c. handle_frames qt maximum handlers f (handle_frame qt maximum handlers c raw s)) e
      ∙ detached_lem f s e

  -- A read of frames that are not too long.
  read_client-lines :
      (b piece : List ℕ) (f : List (List ℕ)) (r : List ℕ) (s : Session World)
      (client : Option Client)
      → s.client ≡ client
      → with_buffer b client ≡ client
      → receive maximum b piece ≡ record { frames = f; rest = r; oversized = false }
      → read_client qt maximum handlers client piece s
        ≡ set_buffer r (handle_frames qt maximum handlers f s)
  unfolding read_client
  read_client-lines b piece f r s none e k h = sym (
      ap (set_buffer r) (detached_lem f s e)
      ∙ ap (λ c. record s { client = with_buffer r c }) e
      ∙ ap (λ c. record s { client = c }) (sym e))
  read_client-lines b piece f r s (some client) e k h =
      let same : client.buffer ≡ b = sym (ap buffer_of k) in
      rw (same, h)
        (ap (λ c. handle_frames qt maximum handlers f (record s { client = c }))
            (ap (with_buffer r) (sym e))
          ∙ handle_frames_buffer r f s)

  abbrev read_by_lines : List (List ℕ) × List ℕ → Session World → Session World
  read_by_lines p s = set_buffer p.1 (handle_frames qt maximum handlers p.0 s)

  read_all-lines :
      (b : List ℕ) (pieces : List (List ℕ)) (s : Session World)
      → with_buffer b s.client ≡ s.client
      → split_lines b ≡ ([], b)
      → Fits maximum (split_lines (b ++ joined pieces))
      → read_all qt maximum handlers pieces s ≡ read_by_lines (split_lines (b ++ joined pieces)) s
  unfolding read_all read
  read_all-lines b [] s k n f = rw (append-nil b, n) (ap (λ c. record s { client = c }) (sym k))
  read_all-lines b (piece ∷ pieces) s k n f =
      let next = receive_piece maximum b piece pieces f in
      let p = split_lines (b ++ piece) in
      let q = split_lines (p.1 ++ joined pieces) in
      let s' = handle_frames qt maximum handlers p.0 s in
      rw (read_client-lines b piece p.0 p.1 s s.client refl k next.0, next.1.1)
        (read_all-lines p.1 pieces (set_buffer p.1 s') (with_buffer_twice p.1 p.1 s'.client)
            (split_lines_rest (b ++ piece)) next.1.0
          ∙ ap (set_buffer q.1) (handle_frames_buffer p.1 q.0 s')
          ∙ ap (λ c. record (handle_frames qt maximum handlers q.0 s') { client = c })
              (with_buffer_twice q.1 p.1 (handle_frames qt maximum handlers q.0 s').client)
          ∙ ap (set_buffer q.1) (sym (handle_frames-append p.0 q.0 s)))

  handle_frame-serve_one :
      (o : JsonObject) (client : Option Client) (s : Session World)
      → IsRequestText qt maximum o
      → handle_frame qt maximum handlers client (qt.to_json o) s
        ≡ serve_one qt maximum handlers client o s
  unfolding handle_frame handle_document
  handle_frame-serve_one o none s h = refl
  handle_frame-serve_one o (some client) s h = rw (h.2, h.1) refl

  handle_frames-serve :
      (os : List JsonObject) (s : Session World)
      → All (IsRequestText qt maximum) os
      → handle_frames qt maximum handlers (map qt.to_json os) s ≡ serve qt maximum handlers os s
  unfolding handle_frames serve
  handle_frames-serve [] s h = refl
  handle_frames-serve (o ∷ os) s h =
      ap (handle_frames qt maximum handlers (map qt.to_json os))
        (handle_frame-serve_one o s.client s h.0)
      ∙ (handle_frames-serve os (serve_one qt maximum handlers s.client o s) h.1)

  -- Requests whose texts are lines within the limit, are not blank and are parsed as the request,
  -- sent as frames to a client's connection with an empty buffer, do to the session what the requests
  -- do one after the other, however the bytes are cut into pieces, whatever the handlers do to
  -- the state, and also if one of them closes the connection.
  pub read_all-serve :
      (os : List JsonObject) (pieces : List (List ℕ)) (s : Session World)
      → All (IsRequestText qt maximum) os
      → joined pieces ≡ joined (map (frame qt.to_json) os)
      → buffer_of s.client ≡ []
      → read_all qt maximum handlers pieces s ≡ serve qt maximum handlers os s
  read_all-serve os pieces s h e b =
      let k = with_buffer-buffer_of [] s.client b in
      let framable =
        All-map (IsRequestText qt maximum) (IsFramable qt.to_json maximum) (λ o t. t.0) os h in
      let s' = handle_frames qt maximum handlers (map qt.to_json os) s in
      let lines : split_lines (joined pieces) ≡ (map qt.to_json os, []) =
        ap split_lines e ∙ split_lines-stream qt.to_json maximum os framable in
      read_all-lines [] pieces s k refl (
        subst (Fits maximum) (sym lines)
          (any-long_framable qt.to_json maximum os framable, omega arith))
      ∙ ap (λ p. read_by_lines p s) lines
      ∙ sym (handle_frames_buffer [] (map qt.to_json os) s)
      ∙ ap (λ c. handle_frames qt maximum handlers (map qt.to_json os) (record s { client = c })) k
      ∙ handle_frames-serve os s h
