-- ===== src/WsClient/Script.antt =====
-- The cases of conformance/h3websocket/client.py and its `main`. A case runs over one connection, on
-- the batches that arrive there; aioquic gives the stream ids, and the clock the time that the
-- deferred reply took.
use nim_vortex.Prelude.{
  ℕ, zero, suc, Bool, true, false, ◌&&◌, Option, none, some, List, [], ◌∷◌, ◌++◌, ltb, ◌==◌,
  if◌then◌else◌,
}
use nim_vortex.Prelude.Bytes.{Bytes, codes, equal}
use nim_vortex.Ws.{op_text, op_binary, op_close, op_ping, op_pong}
use nim_vortex.WsClient.Framing.{ws_frame}
use nim_vortex.WsClient.Session.{
  Batch, Client, fresh, Opening, Result, returned, failed_assertion, timed_out, out_of_fuel,
  open_ws, stop_sending, resp_header, send_raw, recv_ws,
}

-- A connection under way: the client, what is still to come, and how many streams have been opened.
pub record Link : Type 0 where
  pub client : Client
  pub coming : List Batch
  pub opened : ℕ

abbrev pub M : Type 0 → Type 0
M A = Link → Result (A × Link)

infixl 5 ◌>>=◌ ◌>>◌
abbrev pub ◌>>=◌ : {A B : Type 0} → M A → (A → M B) → M B
◌>>=◌ m f l = elim (m l) [
  | returned (a, l') ↦ f a l'
  | failed_assertion ↦ failed_assertion
  | timed_out ↦ timed_out
  | out_of_fuel ↦ out_of_fuel
]

abbrev pub ◌>>◌ : {B : Type 0} → M (Unit {0}) → M B → M B
m >> k = m >>= λ _. k

-- `assert b`
unfoldable pub check : Bool → M (Unit {0})
check true l = returned (tt, l)
check false l = failed_assertion

abbrev pub finish : M (Unit {0})
finish l = returned (tt, l)

-- `open_ws("server", "/", …)`, whose status need not be there.
abbrev pub plain : Opening
plain = record {
  authority = codes "server";
  path = codes "/";
  subprotocols = [];
  pipelined = [];
  fin = false;
  version = codes "13";
}

-- H3_NO_ERROR
abbrev pub h3_no_error : ℕ
h3_no_error = 0x100

-- `status == text`
unfoldable pub is_status : Bytes → Option Bytes → Bool
is_status text none = false
is_status text (some st) = equal st text

-- `fr == (op, payload)` of the first frame, which `recv_ws()` has found.
unfoldable pub is_frame : ℕ → Bytes → List (ℕ × Bytes) → Bool
is_frame op payload [] = false
is_frame op payload ((o, p) ∷ fs) = o == op && equal p payload

-- `fr[0] == OP_CLOSE`
unfoldable pub is_close : List (ℕ × Bytes) → Bool
is_close [] = false
is_close ((o, p) ∷ fs) = o == op_close

module _ (stream_id : ℕ → ℕ) where
  unfoldable pub opening : Opening → M (Option Bytes)
  opening o l = elim (open_ws (stream_id l.opened) o l.coming l.client) [
    | returned (st, c, bs) ↦
        returned (st, record { client = c; coming = bs; opened = suc l.opened })
    | failed_assertion ↦ failed_assertion
    | timed_out ↦ timed_out
    | out_of_fuel ↦ out_of_fuel
  ]

  -- `assert await client.open_ws(…) == text`
  unfoldable pub opens : Opening → Bytes → M (Unit {0})
  opens o text = do st ← opening o; check (is_status text st)

-- `client.stop_sending(client._sid)`; the stream has been opened.
unfoldable pub stopped_with : Option ℕ → M ℕ
stopped_with none l = timed_out
stopped_with (some sid) l = elim (stop_sending sid l.coming l.client) [
  | returned (code, c, bs) ↦ returned (code, record l { client = c; coming = bs })
  | failed_assertion ↦ failed_assertion
  | timed_out ↦ timed_out
  | out_of_fuel ↦ out_of_fuel
]

unfoldable pub stopping : M ℕ
stopping l = stopped_with l.client.sid l

-- `client.recv_ws()`
unfoldable pub receiving : M (List (ℕ × Bytes))
receiving l = elim (recv_ws 1 l.coming l.client) [
  | returned (fs, c, bs) ↦ returned (fs, record l { client = c; coming = bs })
  | failed_assertion ↦ failed_assertion
  | timed_out ↦ timed_out
  | out_of_fuel ↦ out_of_fuel
]

unfoldable pub sending : Option Bytes → M (Unit {0})
sending none l = failed_assertion
sending (some payload) l = returned (tt, record l { client = send_raw payload l.client })

-- `client.send_ws(opcode, payload)`
unfoldable pub send_ws : ℕ → Bytes → M (Unit {0})
send_ws op payload = sending (ws_frame op payload true)

-- `assert (await client.recv_ws())[0] == (op, payload)`
unfoldable pub expects : ℕ → Bytes → M (Unit {0})
expects op payload = do fs ← receiving; check (is_frame op payload fs)

unfoldable pub expects_close : M (Unit {0})
expects_close = do fs ← receiving; check (is_close fs)

-- `resp_header(name) == text` of the last response
unfoldable pub expects_header : Bytes → Bytes → M (Unit {0})
expects_header name text l = check (equal (resp_header name l.client) text) l

unfoldable pub expects_stop : ℕ → M (Unit {0})
expects_stop code = do n ← stopping; check (n == code)

-- The two fragments that are sent as one run of bytes.
unfoldable pub both : Option Bytes → Option Bytes → Option Bytes
both (some a) (some b) = some (a ++ b)
both _ _ = none

unfoldable pub pipelining : Option Bytes → Opening → Opening
pipelining none o = o
pipelining (some payload) o = record o { pipelined = payload }

-- A case on a new connection, which `connect` may fail to open.
unfoldable pub connected : M (Unit {0}) → Option (List Batch) → Bool
connected m none = false
connected m (some bs) = elim (m (record { client = fresh; coming = bs; opened = 0 })) [
  | returned (a, l) ↦ true
  | _ ↦ false
]

-- What arrives on the five connections, and how long the deferred reply took.
pub record Run : Type 0 where
  pub first : Option (List Batch)
  pub coalesced_on : Option (List Batch)
  pub early_fin_on : Option (List Batch)
  pub async_send_on : Option (List Batch)
  pub bad_version_on : Option (List Batch)
  pub elapsed : ℕ

module _ (stream_id : ℕ → ℕ) where
  -- `run`, on its own connection
  unfoldable pub main_case : M (Unit {0})
  main_case = do
    opens stream_id (record plain { subprotocols = codes "chat" ∷ codes "json" ∷ [] }) (codes "200")
    send_ws op_text (codes "hello")
    expects op_text (codes "hello")
    send_ws op_binary (0 ∷ 1 ∷ 2 ∷ 0xff ∷ [])
    expects op_binary (0 ∷ 1 ∷ 2 ∷ 0xff ∷ [])
    send_ws op_ping (codes "pingpayload")
    expects op_pong (codes "pingpayload")
    send_ws op_text (codes "proto?")
    expects op_text (codes "chat")
    sending (both (ws_frame op_text (codes "Hel") false) (ws_frame 0 (codes "lo!") true))
    expects op_text (codes "Hello!")
    send_ws op_close (3 ∷ 0xe8 ∷ [])
    expects_close

  -- `run_coalesced`
  unfoldable pub coalesced : M (Unit {0})
  coalesced = do
    opens stream_id (pipelining (ws_frame op_text (codes "coalesced") true) plain) (codes "200")
    expects op_text (codes "coalesced")

  -- `run_early_fin`
  unfoldable pub early_fin : M (Unit {0})
  early_fin = do opens stream_id (record plain { fin = true }) (codes "200"); expects_close

  -- `run_async_send`, where `elapsed` is the time in milliseconds from sending to the reply
  unfoldable pub async_send : ℕ → M (Unit {0})
  async_send elapsed = do
    opens stream_id plain (codes "200")
    send_ws op_text (codes "later")
    expects op_text (codes "later")
    check (ltb elapsed 700)

  -- The loop of `run_bad_version`, for the rounds that are left.
  unfoldable pub refusals : ℕ → M (Unit {0})
  refusals zero = finish
  refusals (suc left) = do
    opens stream_id (record plain { version = [] }) (codes "426")
    code ← stopping
    refusals left

  -- `run_bad_version`, with `count` further refusals
  unfoldable pub bad_version : ℕ → M (Unit {0})
  bad_version count = do
    opens stream_id
        (pipelining (ws_frame op_text (codes "early") true) (record plain { version = [] }))
        (codes "426")
    expects_header (codes "sec-websocket-version") (codes "13")
    expects_stop h3_no_error
    refusals count
    opens stream_id plain (codes "200")
    send_ws op_text (codes "after-426")
    expects op_text (codes "after-426")

  -- `main`: the exit code
  unfoldable pub main : Run → ℕ
  main r =
      if connected main_case r.first
        && (connected coalesced r.coalesced_on
            && (connected early_fin r.early_fin_on
                && (connected (async_send r.elapsed) r.async_send_on
                    && connected (bad_version 600) r.bad_version_on)))
      then 0
      else 1
