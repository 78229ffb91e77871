-- ===== src/Ipc/Framing/Tests.antt =====
-- Runs of the readers on short texts.
use omacalendar.Base.{ℕ, ◌≡◌, refl, false, List, [], ◌∷◌, map, arith}
use omacalendar.Ipc.{null, JsonObject, no_member, member, newline_byte, frame}
use omacalendar.Ipc.Framing.Frames.{receive_all-frame, client_receive-frame}
use omacalendar.Ipc.Framing.Pieces.{joined}
use omacalendar.Ipc.Framing.Lines.{split_lines, cut, receive-cut}
use omacalendar.Ipc.Framing.{too_long, receive, receive_all, client_receive}

-- A text of JSON for the runs: braces around one letter for each member.
abbrev letters : JsonObject → List ℕ
letters no_member = b'}' ∷ []
letters (member key v o) = b'm' ∷ letters o

abbrev to_json : JsonObject → List ℕ
to_json o = b'{' ∷ letters o

abbrev one : JsonObject
one = member "id" null no_member

abbrev two : JsonObject
two = member "id" null (member "result" null no_member)

-- A stream in three pieces, cut inside both frames.
receive_all-frame_example :
    receive_all 4 [] (
      (b'{' ∷ b'm' ∷ [])
      ∷ (b'}' ∷ newline_byte ∷ b'{' ∷ [])
      ∷ (b'm' ∷ b'm' ∷ b'}' ∷ newline_byte ∷ [])
      ∷ [])
    ≡ record {
      frames = (b'{' ∷ b'm' ∷ b'}' ∷ []) ∷ (b'{' ∷ b'm' ∷ b'm' ∷ b'}' ∷ []) ∷ [];
      rest = [];
      oversized = false;
    }
receive_all-frame_example =
    receive_all-frame to_json 4 (one ∷ two ∷ [])
      ((b'{' ∷ b'm' ∷ [])
        ∷ (b'}' ∷ newline_byte ∷ b'{' ∷ [])
        ∷ (b'm' ∷ b'm' ∷ b'}' ∷ newline_byte ∷ [])
        ∷ [])
      ((refl, omega arith), ((refl, omega arith), tt)) refl

-- Nine bytes of two frames of at most four.
client_receive-frame_example :
    (receive 4 [] (joined (map (frame to_json) (one ∷ two ∷ [])))
      ≡ record { frames = map to_json (one ∷ two ∷ []); rest = []; oversized = false })
    × (client_receive 4 [] (joined (map (frame to_json) (one ∷ two ∷ []))) ≡ too_long)
client_receive-frame_example =
    client_receive-frame to_json 4 (one ∷ two ∷ []) ((refl, omega arith), ((refl, omega arith), tt))

receive-cut_example :
    receive 4 (b'{' ∷ []) (b'}' ∷ newline_byte ∷ b'{' ∷ [])
    ≡ cut 4 [] (split_lines (b'{' ∷ b'}' ∷ newline_byte ∷ b'{' ∷ []))
receive-cut_example = receive-cut 4 (b'{' ∷ []) (b'}' ∷ newline_byte ∷ b'{' ∷ [])

-- The second frame is too long: the first is not routed either.
receive_long_test :
    receive 2 [] (b'a' ∷ newline_byte ∷ b'b' ∷ b'c' ∷ b'd' ∷ newline_byte ∷ []) ≡ too_long
unfolding receive
receive_long_test = refl
