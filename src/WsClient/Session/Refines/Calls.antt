-- ===== src/WsClient/Session/Refines/Calls.antt =====
-- The operations of the client against the abstract one.
use nim_vortex.Prelude.{ℕ, List}
use nim_vortex.WsClient.Session.{Batch, Client, Opening, open_ws, recv_ws, stop_sending}
use nim_vortex.WsClient.Session.Refines.{History, Implements}
use nim_vortex.WsClient.Session.Refines.Opens.{Opens, open_ws-Opens}
use nim_vortex.WsClient.Session.Refines.Stops.{Stops, stop_sending-Stops}
use nim_vortex.WsClient.Session.Refines.Receives.{Receives, recv_ws-Receives}

-- A client that shows a history answers every operation from it, always ends, and shows the history that
-- the operation leaves. `open_ws` begins a new history for its stream, so what was heard before has no
-- part in the answer, and returns its status once a response came whose status is a text, or times out
-- where none comes. `recv_ws` returns the frames in what has been heard and not taken, as many as wanted
-- at least, and takes them; it raises an AssertionError where these bytes hold a masked frame, and times
-- out where all that comes holds fewer frames. `stop_sending` returns the latest code for its stream, or
-- times out where none comes.
pub client-Refines :
    (c : Client) (h : History) (bs : List Batch)
    → Implements c h
    → ((sid : ℕ) (o : Opening) → Opens sid h bs (open_ws sid o bs c))
      × ((want : ℕ) → Receives want h bs (recv_ws want bs c))
      × ((sid : ℕ) → Stops sid h bs (stop_sending sid bs c))
client-Refines c h bs i = (
  λ sid o. open_ws-Opens sid o bs c h i,
  λ want. recv_ws-Receives want bs c h i,
  λ sid. stop_sending-Stops sid bs c h i,
)
