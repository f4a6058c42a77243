-- ===== src/Ws/Tests.antt =====
-- Runs of the WebSocket framing.
use nim_vortex.Prelude.{
  ℕ, ◌≡◌, refl, true, some, List, [], ◌∷◌, ◌++◌, map, length, replicate, arith,
}
use nim_vortex.Prelude.Bytes.{Bytes}
use nim_vortex.Ws.{ws_frame, parsed, parse_ws}
use nim_vortex.Ws.Server.{server_frame, plain_length}
use nim_vortex.Ws.Progress.{place}
use nim_vortex.Ws.Reads.{Reads, parse_ws-Reads}
use nim_vortex.Ws.Chunks.{Resumes, parse_ws-append}
use nim_vortex.Ws.Stream.{encode, told, parse_ws-encode, parse_ws-partial}
use nim_vortex.Ws.Client.{decode_client, decode_client-ws_frame}

abbrev hello : Bytes
hello = 72 ∷ 105 ∷ []

abbrev frames : List (ℕ × Bytes)
frames = (0x81, hello) ∷ (0x89, []) ∷ (0x82, replicate 130 7) ∷ []

parse_ws-encode_example :
    parse_ws (encode frames ++ 0x81 ∷ [])
    ≡ place (length (encode frames)) (map told frames) (parse_ws (0x81 ∷ []))
parse_ws-encode_example = parse_ws-encode frames (0x81 ∷ []) (ground arith)

parse_ws-append_example :
    Resumes (0x81 ∷ 2 ∷ 72 ∷ []) (105 ∷ 0x89 ∷ 0 ∷ []) (parse_ws (0x81 ∷ 2 ∷ 72 ∷ []))
parse_ws-append_example = parse_ws-append (0x81 ∷ 2 ∷ 72 ∷ []) (105 ∷ 0x89 ∷ 0 ∷ [])

parse_ws-Reads_example : Reads (0x89 ∷ 0 ∷ 0x81 ∷ 2 ∷ []) (parse_ws (0x89 ∷ 0 ∷ 0x81 ∷ 2 ∷ []))
parse_ws-Reads_example = parse_ws-Reads (0x89 ∷ 0 ∷ 0x81 ∷ 2 ∷ []) (ground arith)

hello_split : server_frame 0x81 hello ≡ (0x81 ∷ 2 ∷ []) ++ (72 ∷ 105 ∷ [])
unfolding server_frame plain_length
hello_split = refl

parse_ws-partial_example : parse_ws (0x81 ∷ 2 ∷ []) ≡ parsed [] 0
parse_ws-partial_example =
    parse_ws-partial 0x81 72 hello (0x81 ∷ 2 ∷ []) (105 ∷ []) (omega arith) (omega arith)
      hello_split

decode_client-ws_frame_example :
    decode_client (ws_frame 1 hello true ++ 9 ∷ []) ≡ some (true, 1, hello, 9 ∷ [])
decode_client-ws_frame_example =
    decode_client-ws_frame 1 hello true (9 ∷ []) (omega arith) (ground arith) (omega arith)
