-- ===== src/Stress/Workers/Tests.antt =====
-- Runs of the workers.
use nim_vortex.Prelude.{◌≡◌, refl, true, List, [], ◌∷◌, arith}
use nim_vortex.Prelude.Bytes.{codes, equal}
use nim_vortex.Prelude.Text.{lower, show, show_onto}
use nim_vortex.Stress.{Counters, Config, fail, bump, add, add_status, is_ok}
use nim_vortex.Stress.Workers.{
  pin_error, transport_error, fault, raises, Answer, replied, answered, cycled, require, bumped,
  in_session, or_raise, left_with,
}
use nim_vortex.Stress.Workers.Judged.{Judged}
use nim_vortex.Stress.Workers.Drive.{all_of, drive, handled, as_fail}
use nim_vortex.Stress.Workers.Requests
use nim_vortex.Stress.Workers.Requests.{Route, Prepared, prepare, encoding_header}
use nim_vortex.Stress.Workers.Requests.Verified.{worker-Judged}
use nim_vortex.Stress.Workers.Methods
use nim_vortex.Stress.Workers.Methods.Verified.{passes, earned, checks_of, worker-Judged_methods}
use nim_vortex.Stress.Workers.Echo
use nim_vortex.Stress.Workers.Echo.{message, lost, heard, sent, is_echo, echoing}

abbrev no_counts : Counters
no_counts = record { statuses = []; ok_by = []; abandoned = []; xfer = 0; xfer_by = [] }

abbrev cfg : Config
cfg = record { mixed = true; is_h3 = true; tag = codes "requests"; stream = 0 }

abbrev greeting : Route
greeting = record {
  path = codes "/plaintext";
  want_ct = codes "text/plain";
  want_body = codes "Hello, World!";
}

abbrev fox : Prepared
fox = record { ctype = codes "text/plain"; raw = codes "fox"; body = codes "fox"; hdrs = [] }

abbrev greets : Answer
greets = replied 200 (codes "Text/Plain") (codes "Hello, World!")

abbrev echoes_fox : Answer
echoes_fox = replied 200 (codes "text/plain") (codes "fox")

-- A good round, and one whose PUT loses a byte.
abbrev good_round : Requests.Round
good_round = record { get = greets; post = echoes_fox; put = echoes_fox }

abbrev short_round : Requests.Round
short_round = record {
  get = greets;
  post = echoes_fox;
  put = replied 200 (codes "text/plain") (codes "fo");
}

abbrev sessions : List (List Requests.Round)
sessions = (good_round ∷ []) ∷ (short_round ∷ []) ∷ []

worker-Judged_example :
    Judged Requests.is_verified
      (λ x. 200)
      cfg
      (all_of (Requests.checks_of (greeting ∷ []) (fox ∷ []) 0) sessions)
      no_counts
      (Requests.worker cfg (greeting ∷ []) (fox ∷ []) sessions no_counts)
worker-Judged_example =
    worker-Judged cfg (greeting ∷ []) (fox ∷ []) sessions no_counts (omega arith) (omega arith)

-- The five answers that pass are counted, and the sixth is raised.
five_counted : Requests.worker cfg (greeting ∷ []) (fox ∷ []) sessions no_counts ≡ (
  record no_counts { statuses = (200, 5) ∷ []; ok_by = (codes "requests", 5) ∷ [] },
  raises (fault (fail (codes "/echo -> status or body"))),
)
unfolding Requests.worker Requests.once Requests.rounds Requests.round Requests.get_route
    Requests.echo drive handled as_fail in_session or_raise left_with answered require bumped cycled
    bump add add_status is_ok equal lower
five_counted = refl

abbrev method_round : Methods.Round
method_round = record {
  get = greets;
  post = echoes_fox;
  put = echoes_fox;
  delete = echoes_fox;
  patch = echoes_fox;
  head = replied 200 [] [];
  options = replied 204 [] [];
}

worker-Judged_methods_example :
    Judged passes earned cfg
      (all_of (checks_of (fox ∷ []) 0) ((method_round ∷ []) ∷ []))
      no_counts
      (Methods.worker cfg (fox ∷ []) ((method_round ∷ []) ∷ []) no_counts)
worker-Judged_methods_example =
    worker-Judged_methods cfg (fox ∷ []) ((method_round ∷ []) ∷ []) no_counts (omega arith)

-- The pin's text is carried on, and so is a lost connection's, with the name of its type.
pinned_down :
    drive ((λ c. (c, raises (pin_error (codes "HTTP/1.1")))) ∷ []) no_counts
    ≡ (no_counts, raises (fault (fail (codes "protocol pin: HTTP/1.1"))))
unfolding drive handled as_fail
pinned_down = refl

echo_lost :
    Echo.worker cfg 2
      ((
        200,
        message 1 (codes "msg-2-0") ∷ lost (transport_error (codes "OSError") (codes "reset")) ∷ [],
      )
        ∷ [])
      no_counts
    ≡ (
      record no_counts { statuses = (200, 1) ∷ []; ok_by = (codes "requests", 1) ∷ [] },
      raises (fault (fail (codes "transport error (OSError): reset"))),
    )
unfolding Echo.worker Echo.once echoing heard sent is_echo drive handled as_fail in_session or_raise
    left_with require bumped bump add add_status is_ok equal show show_onto
echo_lost = refl
