-- ===== src/Transport/Stats.antt =====
-- `get_server_stats` of conformance/stress/client/transport.py, on the status and the body of `/stats`.
pub mod Report
use nim_vortex.Prelude.{
  ℕ, Bool, true, false, not, ◌&&◌, Option, none, some, List, [], ◌∷◌, ◌==◌, if◌then◌else◌,
}
use nim_vortex.Prelude.Bytes.{Bytes}
use nim_vortex.Prelude.Ints.{ℤ, int_of_bytes, is_ascii_space}

-- Whether a word begins at the front of the text.
unfoldable pub starts_word : Bytes → Bool
starts_word [] = false
starts_word (c ∷ s) = not (is_ascii_space c)

unfoldable pub onto_first : ℕ → List Bytes → List Bytes
onto_first c [] = (c ∷ []) ∷ []
onto_first c (w ∷ ws) = (c ∷ w) ∷ ws

-- `body.split()`
unfoldable pub split : Bytes → List Bytes
split [] = []
split (c ∷ s) =
    let ws = split s in
    if is_ascii_space c then ws else if starts_word s then onto_first c ws else (c ∷ []) ∷ ws

-- What `get_server_stats` returns or raises: a RuntimeError for the status, the ValueError of `int`, or
-- the IndexError of a body with fewer than two fields.
pub data Stats : Type 0 where
  sampled : ℤ → ℤ → Option ℤ → Stats
  bad_status : ℕ → Stats
  value_error : Stats
  index_error : Stats

unfoldable pub with_fds : ℤ → ℤ → Option ℤ → Stats
with_fds rss heap none = value_error
with_fds rss heap (some fds) = sampled rss heap (some fds)

unfoldable pub third_field : ℤ → ℤ → List Bytes → Stats
third_field rss heap [] = sampled rss heap none
third_field rss heap (p ∷ ps) = with_fds rss heap (int_of_bytes p)

unfoldable pub with_heap : ℤ → Option ℤ → List Bytes → Stats
with_heap rss none ps = value_error
with_heap rss (some heap) ps = third_field rss heap ps

unfoldable pub second_field : ℤ → List Bytes → Stats
second_field rss [] = index_error
second_field rss (p ∷ ps) = with_heap rss (int_of_bytes p) ps

unfoldable pub with_rss : Option ℤ → List Bytes → Stats
with_rss none ps = value_error
with_rss (some rss) ps = second_field rss ps

unfoldable pub first_field : List Bytes → Stats
first_field [] = index_error
first_field (p ∷ ps) = with_rss (int_of_bytes p) ps

unfoldable pub get_server_stats : ℕ → Bytes → Stats
get_server_stats st body = if st == 200 then first_field (split body) else bad_status st
