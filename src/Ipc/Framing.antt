-- ===== src/Ipc/Framing.antt =====
-- How `IpcServer::read` of src/ipc/ipcserver.cpp and `IpcClient::read` of src/ipc/ipcclient.cpp cut the
-- bytes of a socket into frames. The limit kMaximumFrameBytes is an argument.
pub mod Lines
pub mod Pieces
pub mod Frames
mod Tests
use omacalendar.Base.{
  ℕ, zero, suc, Bool, true, false, Option, none, some, List, [], ◌∷◌, ◌++◌, ltb, ◌==◌,
  if◌then◌else◌, length, take, drop,
}
use omacalendar.Ipc.{newline_byte}

abbrev pub one_on : Option ℕ → Option ℕ
one_on none = none
one_on (some n) = some (suc n)

-- `QByteArray::indexOf`.
unfoldable pub index_of : ℕ → List ℕ → Option ℕ
index_of byte [] = none
index_of byte (x ∷ xs) = if x == byte then some 0 else one_on (index_of byte xs)

-- What a read takes from the buffer: the frames, the rest, and whether a frame is too long.
pub record Extraction : Type 0 where
  pub frames : List (List ℕ)
  pub rest : List ℕ
  pub oversized : Bool

-- The buffer is cleared, and none of the frames is routed.
abbrev pub too_long : Extraction
too_long = record { frames = []; rest = []; oversized = true }

-- The end of the loop: what is left may be too long as well.
abbrev pub leave : ℕ → List (List ℕ) → List ℕ → Extraction
leave maximum frames buffer =
    if ltb maximum (length buffer)
    then too_long
    else record { frames = frames; rest = buffer; oversized = false }

-- The loop. A round that goes on removes a byte at least, so the length of the buffer is fuel enough.
unfoldable pub extract : ℕ → ℕ → List (List ℕ) → List ℕ → Extraction
unfolding index_of
extract maximum zero frames buffer = leave maximum frames buffer
extract maximum (suc fuel) frames buffer = elim (index_of newline_byte buffer) [
  | none ↦ leave maximum frames buffer
  | some newline ↦
      let rest =
        extract maximum fuel (frames ++ take newline buffer ∷ []) (drop (suc newline) buffer) in
      if ltb maximum newline then too_long else rest
]

-- The frames of the bytes that came after those left in the buffer.
unfoldable pub receive : ℕ → List ℕ → List ℕ → Extraction
unfolding extract
receive maximum buffer bytes = extract maximum (length (buffer ++ bytes)) [] (buffer ++ bytes)

-- `readyRead` after each of the pieces that a stream of bytes comes in: the frames of each, and the
-- buffer after the last. A frame that is too long ends the connection.
unfoldable pub receive_all : ℕ → List ℕ → List (List ℕ) → Extraction
unfolding receive
receive_all maximum buffer [] = record { frames = []; rest = buffer; oversized = false }
receive_all maximum buffer (piece ∷ pieces) =
    let now = receive maximum buffer piece in
    let later = receive_all maximum now.rest pieces in
    if now.oversized then too_long else record {
      frames = now.frames ++ later.frames;
      rest = later.rest;
      oversized = later.oversized;
    }

-- `IpcClient::read` looks at the whole of the buffer first, then takes each frame of it.
abbrev pub take_lines : ℕ → List (List ℕ) → List ℕ → Extraction
take_lines zero frames buffer = record { frames = frames; rest = buffer; oversized = false }
take_lines (suc fuel) frames buffer = elim (index_of newline_byte buffer) [
  | none ↦ record { frames = frames; rest = buffer; oversized = false }
  | some newline ↦ take_lines fuel (frames ++ take newline buffer ∷ []) (drop (suc newline) buffer)
]

unfoldable pub client_receive : ℕ → List ℕ → List ℕ → Extraction
unfolding index_of
client_receive maximum buffer bytes =
    if ltb maximum (length (buffer ++ bytes))
    then too_long
    else take_lines (length (buffer ++ bytes)) [] (buffer ++ bytes)
