-- ===== src/Stress/Workers/Echo.antt =====
-- The echo over WebSocket of `w_ws` of conformance/stress/client/stress_client.py: one call of `once`, over
-- the `websockets` library and over HTTP/3. A text and its UTF-8 bytes are one list.
pub mod Verified
use nim_vortex.Prelude.{
  ℕ, suc, Bool, true, false, ◌&&◌, Option, none, some, List, [], ◌∷◌, ◌++◌, ◌==◌, if◌then◌else◌,
}
use nim_vortex.Prelude.Bytes.{Bytes, codes, equal}
use nim_vortex.Prelude.Text.{show}
use nim_vortex.Stress.{Counters, Config}
use nim_vortex.Stress.Workers.{
  Trouble, M, follow, ◌>>=◌, ◌>>◌, finish, require, bumped, ok, raises, in_session,
}
use nim_vortex.Stress.Workers.Drive.{drive, calls_of}

-- What sending a message and waiting for one comes to: its opcode and its payload, or an exception.
pub data Heard : Type 0 where
  message : ℕ → Bytes → Heard
  lost : Trouble → Heard

unfoldable pub heard : Heard → M (ℕ × Bytes)
heard (message op payload) c = (c, ok (op, payload))
heard (lost t) c = (c, raises t)

-- `f"msg-{i}-{n}"`
unfoldable pub sent : ℕ → ℕ → Bytes
sent i n = codes "msg-" ++ (show i ++ (codes "-" ++ show n))

unfoldable pub is_echo : Bytes → ℕ → Bytes → Bool
is_echo msg op payload = op == 1 && equal payload msg

-- The loop, for the messages that are sent before the deadline, from the `n`th on.
unfoldable pub echoing : Config → ℕ → ℕ → List Heard → M (Unit {0})
echoing cfg i n [] = finish
echoing cfg i n (h ∷ hs) = do
  (op, payload) ← heard h
  require (is_echo (sent i n) op payload) (codes "ws echo mismatch")
  bumped cfg 200
  echoing cfg i (suc n) hs

-- `status` is that of the HTTP/3 handshake; the library's own raises, in `opening`, what is not a switch.
unfoldable pub once : Config → ℕ → Option Trouble → Option Trouble → ℕ → List Heard → M (Unit {0})
once cfg i opening leaving status hs = in_session opening leaving (
    if cfg.is_h3
    then require (status == 200) (codes "ws-h3 handshake") >> echoing cfg i 0 hs
    else echoing cfg i 0 hs)

-- The worker `i`: its sessions, each with its handshake's status and what it heard, under `drive`.
unfoldable pub worker : Config → ℕ → List (ℕ × List Heard) → M (Unit {0})
worker cfg i sessions = drive (calls_of (λ s. once cfg i none none s.0 s.1) sessions)
