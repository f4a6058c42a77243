-- ===== src/H3/Session/Tests.antt =====
-- Runs of the session.
use nim_vortex.Prelude.{◌≡◌, refl, true, false, some, List, [], ◌∷◌}
use nim_vortex.Prelude.Bytes.{codes}
use nim_vortex.H3.{head, end_item, no_head}
use nim_vortex.H3.Session.{
  reset_stream, transmit, Link, send, forget, abort_stream, stop_part, reset_part, request, upload,
  open_ws, stream_open, Step, calls, aborts, run,
}
use nim_vortex.H3.Session.Queued.{
  ids, has, remove, finishes, breaks, is_left, registered, registry, AreNew, is_new, run-registry,
}

abbrev fresh : Link
fresh = record { authority = codes "server:443"; queues = []; sent = [] }

-- A request that is answered, one that is cancelled, a WebSocket whose stream ends before its status, a
-- stream that is opened and aborted, and an upload.
abbrev steps : List Step
steps =
    calls 0 (request (codes "GET") (codes "/") [] [] (head no_head ∷ end_item ∷ []))
    ∷ calls 4 (request (codes "GET") (codes "/") [] [] (head no_head ∷ []))
    ∷ calls 8 (open_ws (codes "/ws") [] (end_item ∷ []))
    ∷ calls 12 (stream_open (codes "GET") (codes "/download") [])
    ∷ calls 16 (upload (codes "/upload") [] ((1 ∷ []) ∷ []) false)
    ∷ aborts 12 268 true (some false)
    ∷ []

steps-AreNew : AreNew steps (ids [])
unfolding AreNew is_new registered is_left finishes breaks remove has ids
steps-AreNew = (refl, (refl, (refl, (refl, (refl, (refl, tt))))))

run-registry_example : ids (run steps fresh).queues ≡ registry steps (ids [])
run-registry_example = run-registry steps fresh steps-AreNew

-- The cancelled request and the WebSocket without a status keep their queues.
two_left : registry steps [] ≡ 4 ∷ 8 ∷ []
unfolding registry registered is_left finishes breaks remove
two_left = refl

-- A stream that has been reaped is not stopped, and its sender is reset.
aborted : (abort_stream 12 268 true (some false) fresh).sent ≡ reset_stream 12 268 ∷ transmit ∷ []
unfolding abort_stream forget send stop_part reset_part
aborted = refl
